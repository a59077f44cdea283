-- ===== src/Web/Rights.antt =====
-- The chain of internal/app/app.go as a whole: who changes accounts, roles and settings, and that the
-- accounts stay sound.
use raspi_media_player.Base.{
  String, false, not, ◌≡◌, refl, sym, ap, ◌∙◌, subst, Option, none, some, List, [], ◌∷◌, ◌++◌,
  if_split, ◌&&◌,
}
use raspi_media_player.Accounts.Rows.{Session, Accounts, Crypto, Answer, gives, denies}
use raspi_media_player.Accounts.Sessions.{resolve_session}
use raspi_media_player.Accounts.Calls.{
  AuthCall, sets_up, signs_up as registers, starts, sets_role, resolves, revokes, call, call_all,
  kept_accounts, IsSound,
}
use raspi_media_player.Accounts.Invariant.{call_all-IsSound}
use raspi_media_player.Web.House.{Route, WebRequest, House, Reply}
use raspi_media_player.Web.Routes.{
  authenticate, identified, by_cookie, dispatch, path, is_forged, needs_session,
  needs_no_installation, guarded, respond,
}
use raspi_media_player.Web.Effects.{
  Wrote, Effect, rests, signs_in, registered, installs, revoked_own, assigned_role, configured,
  tuned,
}
use raspi_media_player.Web.Handled.{dispatch_effect}

-- The requests that arrive, one after the other.
unfoldable pub respond_all : List WebRequest → House → House
respond_all [] h = h
respond_all (r ∷ rs) h = respond_all rs (respond r h).0

-- The accounts that some calls of the store make.
pub record ByCalls (h h' : House) : Type 0 where
  pub calls : List AuthCall
  pub made : h'.accounts ≡ call_all h.crypto calls h.accounts
  pub same_crypto : h'.crypto ≡ h.crypto

call_all-append :
    (c : Crypto) (xs ys : List AuthCall) (a : Accounts)
    → call_all c (xs ++ ys) a ≡ call_all c ys (call_all c xs a)
unfolding call_all
call_all-append c [] ys a = refl
call_all-append c (x ∷ xs) ys a = call_all-append c xs ys (kept_accounts a (call c x a))

then_by : {h h' h'' : House} → ByCalls h h' → ByCalls h' h'' → ByCalls h h''
then_by {h} {h'} {h''} b b' = record {
  calls = b.calls ++ b'.calls;
  made =
      b'.made
      ∙ ap (λ (c : Crypto). call_all c b'.calls h'.accounts) b.same_crypto
      ∙ ap (call_all h.crypto b'.calls) b.made
      ∙ sym (call_all-append h.crypto b.calls b'.calls h.accounts);
  same_crypto = b'.same_crypto ∙ b.same_crypto;
}

one_call : (x : AuthCall) {h h' : House} → h'.crypto ≡ h.crypto → Wrote x h h' → ByCalls h h'
unfolding call_all
one_call x k w = record { calls = x ∷ []; made = w; same_crypto = k }

no_call : {h h' : House} → h'.crypto ≡ h.crypto → h'.accounts ≡ h.accounts → ByCalls h h'
unfolding call_all
no_call k w = record { calls = []; made = w; same_crypto = k }

Effect-ByCalls :
    (route : Route) (identity : Option Session) (h h' : House)
    → Effect route identity h h'
    → ByCalls h h'
Effect-ByCalls route identity h h' (rests k a s) = no_call k a
Effect-ByCalls route identity h h' (signs_in k d u c e v a s) = one_call (starts d u) k a
Effect-ByCalls route identity h h' (registered k d c e m a s) =
    one_call (registers d c.username c.password) k a
Effect-ByCalls route identity h h' (installs k d q e o a) =
    one_call (sets_up d q.credentials.username q.credentials.password) k a
Effect-ByCalls route identity h h' (revoked_own k t id x a s) = one_call (revokes t.user.id id) k a
Effect-ByCalls route identity h h' (assigned_role k t id b x y a s) = one_call (sets_role id b) k a
Effect-ByCalls route identity h h' (configured k t x y a) = no_call k a
Effect-ByCalls route identity h h' (tuned k body e a w) = no_call k a

authenticate-ByCalls : (r : WebRequest) (h : House) → ByCalls h (authenticate r h).0
unfolding authenticate call
authenticate-ByCalls r h = go r.session_cookie
  where
    resolved_to :
        (token : String) (o : Accounts × Answer Session)
        → resolve_session h.crypto token r.draw.now h.accounts ≡ o
        → ByCalls h (identified o h).0
    resolved_to token (a, gives t) e =
        one_call (resolves token r.draw.now) refl
          (sym (ap (λ (o : Accounts × Answer Session). o.0) e))
    resolved_to token (a, denies f) e =
        one_call (resolves token r.draw.now) refl
          (sym (ap (λ (o : Accounts × Answer Session). o.0) e))

    go : (o : Option String) → ByCalls h (by_cookie o r.draw.now h).0
    go none = no_call refl refl
    go (some token) = resolved_to token (resolve_session h.crypto token r.draw.now h.accounts) refl

-- What passed the chain: the request had its effect behind the checks.
pub data Passage (r : WebRequest) (identity : Option Session) (h h' : House) : Type 0 where
  stopped : h' ≡ h → Passage r identity h h'
  passed :
      is_forged r identity h ≡ false
      → needs_session r identity h ≡ false
      → h' ≡ (dispatch r.route r identity h).0
      → Passage r identity h h'

pub guarded-Passage :
    (r : WebRequest) (identity : Option Session) (h : House)
    → Passage r identity h (guarded r identity h).0
guarded-Passage r identity h =
    let Passes = λ (o : House × Reply). Passage r identity h o.0 in
    if_split Passes (not h.installed && not (needs_no_installation (path r.route))) _ _
      (λ e. stopped refl)
      (λ e.
        if_split Passes (is_forged r identity h) _ _ (λ e. stopped refl)
          (λ genuine.
            if_split Passes (needs_session r identity h) _ _ (λ e. stopped refl)
              (λ open_. passed genuine open_ refl)))

Passage-ByCalls :
    (r : WebRequest) (identity : Option Session) (h h' : House)
    → Passage r identity h h'
    → ByCalls h h'
Passage-ByCalls r identity h h' (stopped e) = subst (ByCalls h) (sym e) (no_call refl refl)
Passage-ByCalls r identity h h' (passed g n e) = subst (ByCalls h) (sym e) (
    Effect-ByCalls r.route identity h (dispatch r.route r identity h).0
      (dispatch_effect r identity h))

pub respond-ByCalls : (r : WebRequest) (h : House) → ByCalls h (respond r h).0
unfolding respond
respond-ByCalls r h =
    let a = authenticate r h in
    then_by (authenticate-ByCalls r h)
      (Passage-ByCalls r a.1 a.0 (guarded r a.1 a.0).0 (guarded-Passage r a.1 a.0))

-- Whatever requests come, what they make of the accounts is what some calls of the store make.
pub respond_all-ByCalls : (rs : List WebRequest) (h : House) → ByCalls h (respond_all rs h)
unfolding respond_all
respond_all-ByCalls [] h = no_call refl refl
respond_all-ByCalls (r ∷ rs) h =
    then_by (respond-ByCalls r h) (respond_all-ByCalls rs (respond r h).0)

-- Whatever requests come, by whomever, the accounts stay sound: a final administrator stays.
pub respond_all-IsSound :
    (rs : List WebRequest) (h : House) → IsSound h.accounts → IsSound (respond_all rs h).accounts
respond_all-IsSound rs h s =
    let b = respond_all-ByCalls rs h in
    subst IsSound (sym b.made) (call_all-IsSound h.crypto b.calls h.accounts s)

-- Reading requests leave accounts and settings.
abbrev pub IsLeft : House → House → Type 0
IsLeft h h' = (h'.accounts ≡ h.accounts) × (h'.settings ≡ h.settings)
