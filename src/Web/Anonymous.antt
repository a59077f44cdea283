-- ===== src/Web/Anonymous.antt =====
-- `enforceAccess` of internal/app/auth.go: with accounts required, nobody changes the queue without a
-- session.
use Prim.Native.String as Text
use raspi_media_player.Base.{
  String, true, false, ◌≡◌, refl, sym, ◌∙◌, subst, Option, none, some, same, eq_iff, codes-append,
}
use raspi_media_player.Accounts.Rows.{Session, Accounts, Answer, gives, denies}
use raspi_media_player.Accounts.Sessions.{resolve_session}
use raspi_media_player.Api.Submission.{
  Endpoint, handle, gets_queue, clears_queue, skips_item, withdraws_skip, removes_item,
  withdraws_removal, reorders_queue, adds_item,
}
use raspi_media_player.Api.Handlers.{get_queue}
use raspi_media_player.Web.House.{queues, WebRequest, House}
use raspi_media_player.Web.Rights.{Passage, stopped, passed, guarded-Passage}
use raspi_media_player.Web.Routes.{
  authenticate, by_cookie, identified, dispatch, guarded, respond, needs_session, is_protected,
  queue_method, queue_path,
}

-- The rows of the queue and its state.
pub record SameQueue (h h' : House) : Type 0 where
  pub same_items : h'.server.db.items ≡ h.server.db.items
  pub same_state : h'.server.db.state ≡ h.server.db.state

unmoved : {h : House} → SameQueue h h
unmoved = record { same_items = refl; same_state = refl }

authenticate-queue :
    (r : WebRequest) (h : House)
    → SameQueue h (authenticate r h).0 × ((authenticate r h).0.access_mode ≡ h.access_mode)
unfolding authenticate
authenticate-queue r h = go r.session_cookie
  where
    resolved_to :
        (o : Accounts × Answer Session)
        → SameQueue h (identified o h).0 × ((identified o h).0.access_mode ≡ h.access_mode)
    resolved_to (a, gives t) = (record { same_items = refl; same_state = refl }, refl)
    resolved_to (a, denies f) = (record { same_items = refl; same_state = refl }, refl)

    go :
        (o : Option String)
        → SameQueue h (by_cookie o r.draw.now h).0
          × ((by_cookie o r.draw.now h).0.access_mode ≡ h.access_mode)
    go none = (record { same_items = refl; same_state = refl }, refl)
    go (some token) = resolved_to (resolve_session h.crypto token r.draw.now h.accounts)

-- Every route of the queue is protected.
under_queue : (p : String) → is_protected (Text.◌++◌ "/api/v1/queue/items/" p) ≡ true
under_queue p = rw (codes-append "/api/v1/queue/items/" p) refl

queue_path-protected : (e : Endpoint) → is_protected (queue_path e) ≡ true
queue_path-protected gets_queue = refl
queue_path-protected clears_queue = refl
queue_path-protected skips_item = refl
queue_path-protected withdraws_skip = refl
queue_path-protected (removes_item id) = under_queue id
queue_path-protected (withdraws_removal id) = under_queue (Text.◌++◌ id "/removal-vote")
queue_path-protected (reorders_queue order) = refl
queue_path-protected (adds_item id at body) = refl

-- Reading the queue changes neither its rows nor its state.
reading_queue : (r : WebRequest) (h : House) → SameQueue h (dispatch (queues gets_queue) r none h).0
unfolding dispatch handle get_queue
reading_queue r h = record { same_items = refl; same_state = refl }

needs-session :
    (e : Endpoint) (r : WebRequest) (h : House)
    → r.route ≡ queues e
    → same (queue_method e) "GET" ≡ false
    → h.access_mode ≡ "accounts_required"
    → needs_session r none h ≡ true
needs-session e r h at m mode =
    rw (at, queue_path-protected e, m, (eq_iff h.access_mode "accounts_required").1 mode) refl

-- What passed the chain without a session is a reading of the queue.
Passage-SameQueue :
    (e : Endpoint) (r : WebRequest) (h h' : House)
    → h.access_mode ≡ "accounts_required"
    → r.route ≡ queues e
    → Passage r none h h'
    → SameQueue h h'
Passage-SameQueue e r h h' mode at (stopped same_house) =
    subst (SameQueue h) (sym same_house) unmoved
Passage-SameQueue e r h h' mode at (passed genuine z result) =
    subst (SameQueue h) (sym result) (reading e at z)
  where
    reading :
        (e : Endpoint)
        → r.route ≡ queues e
        → needs_session r none h ≡ false
        → SameQueue h (dispatch r.route r none h).0
    reading gets_queue at z =
        subst (λ route. SameQueue h (dispatch route r none h).0) (sym at) (reading_queue r h)
    reading clears_queue at z = cc (z, needs-session clears_queue r h at refl mode)
    reading skips_item at z = cc (z, needs-session skips_item r h at refl mode)
    reading withdraws_skip at z = cc (z, needs-session withdraws_skip r h at refl mode)
    reading (removes_item id) at z = cc (z, needs-session (removes_item id) r h at refl mode)
    reading (withdraws_removal id) at z =
        cc (z, needs-session (withdraws_removal id) r h at refl mode)
    reading (reorders_queue order) at z =
        cc (z, needs-session (reorders_queue order) r h at refl mode)
    reading (adds_item id now body) at z =
        cc (z, needs-session (adds_item id now body) r h at refl mode)

-- With accounts required, a request for the queue whose cookie resolves to no session leaves the rows
-- of the queue and its state, whatever it asks for.
pub respond-anonymous :
    (e : Endpoint) (r : WebRequest) (h : House)
    → r.route ≡ queues e
    → h.access_mode ≡ "accounts_required"
    → (authenticate r h).1 ≡ none
    → SameQueue h (respond r h).0
unfolding respond
respond-anonymous e r h at mode nobody =
    let a = authenticate r h in
    let (kept, same_mode) = authenticate-queue r h in
    let left_alone =
      Passage-SameQueue e r a.0 (guarded r none a.0).0 (same_mode ∙ mode) at
        (guarded-Passage r none a.0) in
    let left : SameQueue a.0 (guarded r a.1 a.0).0 =
      subst (λ o. SameQueue a.0 (guarded r o a.0).0) (sym nobody) left_alone in
    record {
      same_items = left.same_items ∙ kept.same_items;
      same_state = left.same_state ∙ kept.same_state;
    }
