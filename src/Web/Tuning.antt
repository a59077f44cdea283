-- ===== src/Web/Tuning.antt =====
-- internal/app/autoqueue.go: the settings besides its own four.
use raspi_media_player.Base.{
  ℕ, String, Bool, true, false, not, ◌≡◌, refl, sym, ap, ◌∙◌, subst, Option, none, some, List, [],
  ◌∷◌, ◌++◌, All, All-append, keep, lookup, insert, delete, inl, inr, Bool-cases, if_split, same,
  eq_iff, ltb, if◌then◌else◌, trim, is_space, ◌&&◌,
}
use raspi_media_player.Config.Store.{
  Definition, Cipher, SettingsStore, Outcome, done, fails, SettingError, put_secret, set_defined,
  set,
}
use raspi_media_player.Library.Store.{insert_sorted}
use raspi_media_player.Web.House.{AutoQueueRequest}
use raspi_media_player.Web.Admin.{is_one_of}
use raspi_media_player.Web.AutoQueue.{
  update_enabled, update_text, updates_of, set_then, set_each, visited,
}

-- What the settings are besides those of the automatic queue that listeners write.
abbrev pub auto_queue_keys : List String
auto_queue_keys =
    "auto_queue_enabled" ∷ "auto_queue_mode" ∷ "auto_queue_artists" ∷ "auto_queue_genres" ∷ []

abbrev pub without_auto_queue : SettingsStore → SettingsStore
without_auto_queue s = record s {
  stored = keep (λ e. not (is_one_of e.0 auto_queue_keys)) s.stored;
}

-- Writing a setting of the automatic queue leaves the others.
keep-insert :
    (key text : String) (m : List (String × String))
    → is_one_of key auto_queue_keys ≡ true
    → keep (λ e. not (is_one_of e.0 auto_queue_keys)) (insert key text m)
      ≡ keep (λ e. not (is_one_of e.0 auto_queue_keys)) m
keep-insert key text m h = rw h (deleted m)
  where
    deleted :
        (m : List (String × String))
        → keep (λ e. not (is_one_of e.0 auto_queue_keys)) (delete key m)
          ≡ keep (λ e. not (is_one_of e.0 auto_queue_keys)) m
    deleted [] = refl
    deleted ((j, v) ∷ m) = elim (Bool-cases (same j key)) [
      | inl e ↦
          let own : is_one_of j auto_queue_keys ≡ true =
            subst (λ k. is_one_of k auto_queue_keys ≡ true) (sym ((eq_iff j key).0 e)) h in
          rw (e, own) (deleted m)
      | inr e ↦ rw e (consed (is_one_of j auto_queue_keys) (deleted m))
    ]
      where
        consed :
            (b : Bool) {xs ys : List (String × String)}
            → xs ≡ ys
            → (if not b then (j, v) ∷ xs else xs) ≡ (if not b then (j, v) ∷ ys else ys)
        consed true e = e
        consed false e = ap (◌∷◌ (j, v)) e

put-without :
    (key text : String) (s : SettingsStore)
    → is_one_of key auto_queue_keys ≡ true
    → without_auto_queue (record s { stored = insert key text s.stored }) ≡ without_auto_queue s
put-without key text s h = ap (λ m. record s { stored = m }) (keep-insert key text s.stored h)

-- What an attempt to write leaves, where it succeeds.
data Leaves (s : SettingsStore) : Outcome → Type 0 where
  leaves : {s' : SettingsStore} → without_auto_queue s' ≡ without_auto_queue s → Leaves s (done s')
  stops : {e : SettingError} → Leaves s (fails e)

set-Leaves :
    (nonce key text : String) (s : SettingsStore)
    → is_one_of key auto_queue_keys ≡ true
    → Leaves s (set nonce key text s)
unfolding set
set-Leaves nonce key text s h = defined (lookup key s.definitions)
  where
    secret : (c : Option Cipher) (value : String) → Leaves s (put_secret c nonce key value s)
    secret none value = stops
    secret (some c) value = leaves (put-without key (c.seal nonce key value) s h)

    defined : (d : Option Definition) → Leaves s (set_defined d nonce key (trim is_space text) s)
    defined none = stops
    defined (some d) =
        if_split (Leaves s) d.read_only _ _ (λ e. stops)
          (λ e.
            if_split (Leaves s) (d.secret && not (same (trim is_space text) "")) _ _
              (λ t. secret s.cipher (trim is_space text))
              (λ t. leaves (put-without key (trim is_space text) s h)))

abbrev pub AreKeys : List (String × String) → Type 0
AreKeys = All (λ u. is_one_of u.0 auto_queue_keys ≡ true)

pub set_each-without :
    (nonce : String) (us : List (String × String)) (s : SettingsStore)
    → AreKeys us
    → without_auto_queue (set_each nonce us s).0 ≡ without_auto_queue s
set_each-without nonce [] s k = refl
set_each-without nonce ((key, text) ∷ us) s k =
    then_rest (set nonce key text s) (set-Leaves nonce key text s k.0)
      (λ s'. set_each-without nonce us s' k.1)
  where
    then_rest :
        (o : Outcome)
        → Leaves s o
        → ((s' : SettingsStore)
            → without_auto_queue (set_each nonce us s').0 ≡ without_auto_queue s')
        → without_auto_queue (set_then o (λ s'. set_each nonce us s') s).0 ≡ without_auto_queue s
    then_rest (done s') (leaves e) rest = rest s' ∙ e
    then_rest (fails x) stops rest = refl

pub visited-keys :
    (visit : String → ℕ) (us : List (String × String)) → AreKeys us → AreKeys (visited visit us)
visited-keys visit [] k = tt
visited-keys visit (u ∷ us) k = inserted u (visited visit us) k.0 (visited-keys visit us k.1)
  where
    inserted :
        (u : String × String) (us : List (String × String))
        → is_one_of u.0 auto_queue_keys ≡ true
        → AreKeys us
        → AreKeys (insert_sorted (λ a b. ltb (visit a.0) (visit b.0)) u us)
    inserted u [] e k = (e, tt)
    inserted u (v ∷ us) e k =
        if_split AreKeys (ltb (visit v.0) (visit u.0)) _ _ (λ t. (k.0, inserted u us e k.1))
          (λ t. (e, k))

pub updates_of-keys : (q : AutoQueueRequest) → AreKeys (updates_of q)
updates_of-keys q = both (update_enabled q.enabled) _ (enabled q.enabled) (
    both (update_text "auto_queue_mode" q.mode) _ (text "auto_queue_mode" refl q.mode) (
      both (update_text "auto_queue_artists" q.artists) _ (text "auto_queue_artists" refl q.artists)
        (text "auto_queue_genres" refl q.genres)))
  where
    both : (us vs : List (String × String)) → AreKeys us → AreKeys vs → AreKeys (us ++ vs)
    both us vs k l = All-append (λ u. is_one_of u.0 auto_queue_keys ≡ true) us vs k l

    enabled : (o : Option Bool) → AreKeys (update_enabled o)
    enabled none = tt
    enabled (some b) = (refl, tt)

    text :
        (key : String)
        → is_one_of key auto_queue_keys ≡ true
        → (o : Option String) → AreKeys (update_text key o)
    text key e none = tt
    text key e (some t) = (e, tt)
