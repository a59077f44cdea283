-- ===== src/Sources/Classes.antt =====
-- internal/source/source.go: which adapter takes an url, and what the cache answers.
use raspi_media_player.Base.{
  ℕ, ◌+◌, ◌<◌, ◌≡◌, ◌≢◌, refl, String, Bool, true, false, not, Option, none, some, ◌&&◌, same, leb,
  ltb, if◌then◌else◌, lookup, insert, delete, sym, ap, subst, ◌∙◌, lookup-insert_self, trim,
  is_space, byte_length, Bool-cases, inl, inr, arith,
}
use raspi_media_player.Sources.Adapters.{
  Parser, Url, unsupported, invalid, Playable, Answer, plays, fails, direct_match, youtube_match,
  is_direct, is_youtube, is_web, is_youtube_host, refusal,
}
use raspi_media_player.Sources.Registry.{
  Registry, Adapter, refused, direct_registry, classify, kind_or_refusal, adapter_of, resolve,
  remembered, ask, cache_key,
}

-- No url is taken by both adapters, whatever the parser makes of it.
pub youtube_match-direct_match :
    (parse : Parser) (raw : String) → youtube_match parse raw && direct_match parse raw ≡ false
unfolding youtube_match direct_match
youtube_match-direct_match parse raw = apart (parse (trim is_space raw))
  where
    apart : (u : Option Url) → is_youtube raw u && is_direct raw u ≡ false
    apart none = refl
    apart (some u) = elim (Bool-cases (is_youtube_host u.hostname)) [
      | inl e ↦ ground arith
      | inr e ↦ ground arith
    ]

-- The tests of the two adapters and of the refusal: host, scheme, no user, length, YouTube.
taken_or_invalid :
    (h w n l y : Bool)
    → kind_or_refusal
        (if n && w && l && y
          then some "youtube"
          else (if h && w && n && l && not y then some "direct" else none))
        (if h && w && n && l then unsupported else invalid)
      ≢ refused unsupported
taken_or_invalid true true true true true = λ e. cc e
taken_or_invalid true true true true false = λ e. cc e
taken_or_invalid false true true true true = λ e. cc e
taken_or_invalid false true true true false = λ e. cc e
taken_or_invalid true true true false y = λ e. cc e
taken_or_invalid false true true false y = λ e. cc e
taken_or_invalid true true false l y = λ e. cc e
taken_or_invalid false true false l y = λ e. cc e
taken_or_invalid true false true l y = λ e. cc e
taken_or_invalid false false true l y = λ e. cc e
taken_or_invalid true false false l y = λ e. cc e
taken_or_invalid false false false l y = λ e. cc e

-- With the two adapters of the program no url is refused as unsupported: it is taken, or invalid.
pub classify-supported :
    (parse : Parser) (raw : String) → classify (direct_registry parse) raw ≢ refused unsupported
unfolding classify youtube_match direct_match
classify-supported parse raw = go (parse (trim is_space raw))
  where
    chosen : Option Url → Option String
    chosen u =
        if is_youtube raw u
        then some "youtube"
        else (if is_direct raw u then some "direct" else none)

    go : (u : Option Url) → kind_or_refusal (chosen u) (refusal raw u) ≢ refused unsupported
    go none = λ e. cc e
    go (some u) =
        taken_or_invalid (not (same u.host "")) (is_web u) (not u.has_user)
          (leb (byte_length raw) 2048) (is_youtube_host u.hostname)

-- What was resolved is answered again until it expires, and the registry then stays as it is.
pub resolve-again :
    (now later : ℕ) (kind raw : String) (r r' : Registry) (p : Playable)
    → lookup (cache_key kind raw) r.cache ≡ none
    → 0 < r.cache_ttl
    → later < now + r.cache_ttl
    → resolve now kind raw r ≡ (r', plays p)
    → resolve later kind raw r' ≡ (r', plays p)
unfolding resolve
resolve-again now later kind raw r r' p fresh ttl h e =
    asked (adapter_of kind r.order) (sym (rw fresh refl) ∙ e)
  where
    key : String
    key = cache_key kind raw

    emptied : Registry
    emptied = record r { cache = delete key r.cache }

    kept : Registry → Playable → Registry
    kept s q = record s {
      cache = insert key (record { value = q; expires_at = now + s.cache_ttl }) s.cache;
    }

    in_time : (ttl : ℕ) → later < now + ttl → ltb later (now + ttl) ≡ true
    in_time ttl h = ground arith

    positive : (ttl : ℕ) → 0 < ttl → ltb 0 ttl ≡ true
    positive ttl h = ground arith

    base : (q : Playable) → resolve later kind raw (kept emptied q) ≡ (kept emptied q, plays q)
    base q =
        rw
          (
            lookup-insert_self key (record { value = q; expires_at = now + r.cache_ttl })
                emptied.cache,
            in_time r.cache_ttl h,
          )
          refl

    answered :
        (x : Answer)
        → remembered now key x emptied ≡ (r', plays p)
        → resolve later kind raw r' ≡ (r', plays p)
    answered (fails e) h' = cc (ap (λ (x : Registry × Answer). x.1) h')
    answered (plays q) h' =
        let stored : remembered now key (plays q) emptied ≡ (kept emptied q, plays q) =
          rw (positive r.cache_ttl ttl) refl in
        subst (λ (x : Registry × Answer). resolve later kind raw x.0 ≡ x) (sym stored ∙ h') (base q)

    asked :
        (a : Option Adapter)
        → ask now key raw a emptied ≡ (r', plays p)
        → resolve later kind raw r' ≡ (r', plays p)
    asked none h' = cc (ap (λ (x : Registry × Answer). x.1) h')
    asked (some a) h' = answered (a.resolves raw) h'
