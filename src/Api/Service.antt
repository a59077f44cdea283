-- ===== src/Api/Service.antt =====
-- internal/app/queue.go and internal/app/voting.go: the requests in any order, and those that carry a
-- stale revision.
use raspi_media_player.Base.{◌≡◌, sym, ap, ◌∙◌, subst, true, List, [], ◌∷◌, inl, inr, ◌⊎◌, arith}
use raspi_media_player.Queue.Rows.{Db, ok}
use raspi_media_player.Queue.Store.{remove, clear, skip, reorder, mutate}
use raspi_media_player.Queue.Calls.{
  Call, adds, removes, clears, skips, reorders, sets_current, updates_playback, sets_volume,
  sets_paused, finishes, retries, resets, reconciles, run, IsWellFormed,
}
use raspi_media_player.Queue.Invariant.{run-IsWellFormed}
use raspi_media_player.Api.Requests.{Request, Server, expects, required_revision}
use raspi_media_player.Api.Submission.{Endpoint, handle}
use raspi_media_player.Api.Effects.{is_addition, Sent, Changes, unchanged, called, handle-Changes}

-- The requests that arrive, one after the other.
unfoldable pub serve : List (Endpoint × Request) → Server → Server
serve [] s = s
serve ((e, r) ∷ requests) s = serve requests (handle e r s).0

-- Whatever requests come, by whomever and with whatever headers, a well-formed database stays well
-- formed.
pub serve-IsWellFormed :
    (requests : List (Endpoint × Request)) (s : Server)
    → IsWellFormed s.db
    → IsWellFormed (serve requests s).db
unfolding serve
serve-IsWellFormed [] s w = w
serve-IsWellFormed ((e, r) ∷ requests) s w =
    serve-IsWellFormed requests (handle e r s).0 (kept (handle-Changes e r s))
  where
    kept : Changes e r s.db (handle e r s).0.db → IsWellFormed (handle e r s).0.db
    kept (unchanged h) = subst IsWellFormed (sym h) w
    kept (called c sent h) = run-IsWellFormed c s.db (handle e r s).0.db w h

-- A call that took effect for a request that is no addition names the current revision.
Sent-revision :
    (c : Call) (e : Endpoint) (r : Request) (db db' : Db)
    → Sent e r c
    → run c db ≡ ok db'
    → (required_revision r.if_match ≡ expects db.state.revision) ⊎ (is_addition e ≡ true)
unfolding run remove clear skip reorder mutate
Sent-revision (adds a) e r db db' sent h = inr sent
Sent-revision (removes id n) e r db db' sent h = inl (sent ∙ ap expects (ground arith))
Sent-revision (clears n) e r db db' sent h = inl (sent ∙ ap expects (ground arith))
Sent-revision (skips n) e r db db' sent h = inl (sent ∙ ap expects (ground arith))
Sent-revision (reorders order n) e r db db' sent h = inl (sent ∙ ap expects (ground arith))
Sent-revision (sets_current id) e r db db' sent h = absurd sent
Sent-revision (updates_playback p) e r db db' sent h = absurd sent
Sent-revision (sets_volume v) e r db db' sent h = absurd sent
Sent-revision (sets_paused b) e r db db' sent h = absurd sent
Sent-revision (finishes id f) e r db db' sent h = absurd sent
Sent-revision (retries id f) e r db db' sent h = absurd sent
Sent-revision (resets status text) e r db db' sent h = absurd sent
Sent-revision reconciles e r db db' sent h = absurd sent

-- A request changes nothing in the database unless its header names the current revision or it adds
-- an item.
pub handle-guarded :
    (e : Endpoint) (r : Request) (s : Server)
    → ((handle e r s).0.db ≡ s.db)
      ⊎ ((required_revision r.if_match ≡ expects s.db.state.revision) ⊎ (is_addition e ≡ true))
handle-guarded e r s = guarded (handle-Changes e r s)
  where
    guarded :
        Changes e r s.db (handle e r s).0.db
        → ((handle e r s).0.db ≡ s.db)
          ⊎ ((required_revision r.if_match ≡ expects s.db.state.revision) ⊎ (is_addition e ≡ true))
    guarded (unchanged h) = inl h
    guarded (called c sent h) = inr (Sent-revision c e r s.db (handle e r s).0.db sent h)
