-- ===== src/Voting/Ballots.antt =====
-- internal/app/voting.go: whose votes count after `setVote`.
use raspi_media_player.Base.{
  ℕ, suc, ◌+◌, ◌≤◌, ◌≡◌, ◌≢◌, refl, sym, ap, ◌∙◌, subst, String, Bool, true, false, none, List, [],
  ◌∷◌, All, length, ltb, ◌==◌, same, same_ne, eq_iff, eq_refl, lookup, insert, delete,
  delete-absent, IsMap, insert-IsMap, lookup-insert_ne, Bool-cases, inl, inr, arith,
}
use raspi_media_player.Voting.Policy.{VotePolicy}
use raspi_media_player.Voting.Manager.{
  Times, VoteManager, SkipVoteState, touch, fresh, prune, prune_votes, votes_for, or_empty,
  is_present, pruned, counted, state, recorded, record_vote, set_vote, at_least_one, required_votes,
}
use raspi_media_player.Voting.Thresholds.{required_votes-alone}

prune-prune :
    (window now : ℕ) (times : Times)
    → prune window now (prune window now times) ≡ prune window now times
unfolding prune
prune-prune window now [] = refl
prune-prune window now (e ∷ times) = elim (Bool-cases (fresh window now e)) [
  | inl h ↦ rw (h, h, prune-prune window now times) refl
  | inr h ↦ rw h (prune-prune window now times)
]

votes_for-absent :
    (timeout now : ℕ) (key : String) (votes : List (String × Times))
    → All (λ e. e.0 ≢ key) votes
    → lookup key (prune_votes timeout now votes) ≡ none
votes_for-absent timeout now key [] h = refl
votes_for-absent timeout now key ((k, voters) ∷ votes) h =
    let rest = votes_for-absent timeout now key votes h.1 in
    elim (Bool-cases (length (prune timeout now voters) == 0)) [
      | inl e ↦ rw e rest
      | inr e ↦ rw (e, same_ne k key h.0) rest
    ]

length-zero : (times : Times) → (length times == 0) ≡ true → times ≡ []
length-zero [] h = refl
length-zero (e ∷ times) h = absurd (never (length times) h)
  where
    never : (n : ℕ) → (suc n == 0) ≡ true → ⊥
    never n h = ground arith

-- The pruned votes of one item.
votes_for-prune-insert :
    (timeout now : ℕ) (key : String) (voters : Times) (votes : List (String × Times))
    → votes_for key (prune_votes timeout now (insert key voters votes)) ≡ prune timeout now voters
votes_for-prune-insert timeout now key voters votes =
    elim (Bool-cases (length (prune timeout now voters) == 0)) [
      | inl e ↦
          rw (e, votes_for-absent timeout now key (delete key votes) (delete-absent key votes))
            (sym (length-zero (prune timeout now voters) e))
      | inr e ↦ rw (e, eq_refl key) refl
    ]

-- What `state` returns for a policy in force.
enabled_state :
    (p : VotePolicy) (key item listener : String) (now : ℕ) (m : VoteManager)
    → p.enabled ≡ true
    → item ≢ ""
    → state p key item listener now m ≡ (
      pruned p now m,
      counted p item listener now
          (length (pruned p now m).active)
          (prune p.timeout now (votes_for key (pruned p now m).votes)),
    )
unfolding state
enabled_state p key item listener now m h k = rw (h, same_ne item "" k) refl

module _ (p : VotePolicy) (key item listener : String) (vote : Bool) (seen_at voted_at now : ℕ)
    (m : VoteManager) (enabled : p.enabled ≡ true) (named : item ≢ "") where
  -- The votes that count: those of before, changed by this one, without the expired.
  abbrev ballots : Times
  ballots = prune p.timeout now (recorded vote listener voted_at (votes_for key m.votes))

  abbrev listeners : Times
  listeners = prune p.active_window now (insert listener seen_at m.active)

  pub set_vote-counted :
      (set_vote p key item listener vote seen_at voted_at now m).1
      ≡ counted p item listener now (length listeners) ballots
  unfolding set_vote
  set_vote-counted =
      let voters = recorded vote listener voted_at (votes_for key m.votes) in
      let cast = record_vote key listener vote voted_at (touch listener seen_at m) in
      ap (λ (r : VoteManager × SkipVoteState). r.1)
        (enabled_state p key item listener now cast enabled named)
      ∙ ap (counted p item listener now (length listeners)) (
          ap (prune p.timeout now) (votes_for-prune-insert p.timeout now key voters m.votes)
          ∙ prune-prune p.timeout now voters)

lookup-prune_absent :
    (id : String) (window now : ℕ) (times : Times)
    → All (λ e. e.0 ≢ id) times
    → lookup id (prune window now times) ≡ none
unfolding prune
lookup-prune_absent id window now [] h = refl
lookup-prune_absent id window now (e ∷ times) h =
    let rest = lookup-prune_absent id window now times h.1 in
    elim (Bool-cases (fresh window now e)) [
      | inl k ↦ rw (k, same_ne e.0 id h.0) rest
      | inr k ↦ rw k rest
    ]

-- The votes of the other listeners that have not expired.
abbrev pub others : ℕ → ℕ → String → Times → Times
others timeout now listener voters = prune timeout now (delete listener voters)

alone_length :
    (window now seen_at : ℕ) (listener : String) (active : Times)
    → others window now listener active ≡ []
    → at_least_one (length (prune window now (insert listener seen_at active))) ≡ 1
unfolding prune
alone_length window now seen_at listener active h =
    elim (Bool-cases (fresh window now (listener, seen_at))) [
      | inl e ↦ rw (e, h) refl
      | inr e ↦ rw (e, h) refl
    ]

-- Pruning all items prunes the votes of each.
votes_for-prune_votes :
    (timeout now : ℕ) (key : String) (votes : List (String × Times))
    → IsMap votes
    → votes_for key (prune_votes timeout now votes) ≡ prune timeout now (votes_for key votes)
unfolding prune
votes_for-prune_votes timeout now key [] h = refl
votes_for-prune_votes timeout now key ((k, voters) ∷ votes) h =
    let rest = votes_for-prune_votes timeout now key votes h.1 in
    elim (Bool-cases (same k key)) [
      | inl e ↦
          let gone =
            votes_for-absent timeout now key votes
              (subst (λ t. All (λ v. v.0 ≢ t) votes) ((eq_iff k key).0 e) h.0) in
          elim (Bool-cases (length (prune timeout now voters) == 0)) [
            | inl none_left ↦
                rw (none_left, e, gone) (sym (length-zero (prune timeout now voters) none_left))
            | inr some_left ↦ rw (some_left, e) refl
          ]
      | inr e ↦ elim (Bool-cases (length (prune timeout now voters) == 0)) [
        | inl none_left ↦ rw (none_left, e) rest
        | inr some_left ↦ rw (some_left, e) rest
      ]
    ]

module _ (p : VotePolicy) (key item listener : String) (seen_at voted_at now : ℕ) (m : VoteManager)
    (enabled : p.enabled ≡ true) (named : item ≢ "") where
  -- Where voting is on and an item is named, a vote that has not expired counts once, beside the unexpired votes of the others; so a second
  -- vote of the same listener adds nothing.
  pub set_vote-cast :
      now ≤ voted_at + p.timeout
      → let s = (set_vote p key item listener true seen_at voted_at now m).1 in
        (s.votes ≡ suc (length (others p.timeout now listener (votes_for key m.votes))))
        × (s.voted ≡ true)
  unfolding prune
  set_vote-cast in_time =
      rw (set_vote-counted p key item listener true seen_at voted_at now m enabled named)
        (rw (kept p.timeout voted_at now in_time, eq_refl listener) (refl, refl))
    where
      kept :
          (timeout voted_at now : ℕ)
          → now ≤ voted_at + timeout
          → ltb (voted_at + timeout) now ≡ false
      kept timeout voted_at now h = ground arith

  -- Where voting is on and an item is named, a withdrawn vote counts no more, and the unexpired votes of the others still do.
  pub set_vote-withdrawn :
      let s = (set_vote p key item listener false seen_at voted_at now m).1 in
      (s.votes ≡ length (others p.timeout now listener (votes_for key m.votes))) × (s.voted ≡ false)
  set_vote-withdrawn =
      rw (set_vote-counted p key item listener false seen_at voted_at now m enabled named) (
        refl,
        ap is_present (
            lookup-prune_absent listener p.timeout now (delete listener (votes_for key m.votes))
              (delete-absent listener (votes_for key m.votes))),
      )

  -- Where voting is on, an item is named, the percentage is at most 100, the vote has not expired, and
  -- nobody else was active lately, one listener counts as active, and the votes are enough.
  pub set_vote-alone :
      p.percent ≤ 100
      → now ≤ voted_at + p.timeout
      → others p.active_window now listener m.active ≡ []
      → let s = (set_vote p key item listener true seen_at voted_at now m).1 in
        (s.active_listeners ≡ 1) × (s.required ≤ s.votes)
  set_vote-alone percent in_time alone =
      let whole = set_vote-counted p key item listener true seen_at voted_at now m enabled named in
      let one = alone_length p.active_window now seen_at listener m.active alone in
      let active = ap (λ (s : SkipVoteState). s.active_listeners) whole ∙ one in
      let required =
        ap (λ (s : SkipVoteState). s.required) whole
        ∙ ap (λ n. required_votes n p.percent) one
        ∙ required_votes-alone p.percent percent in
      (active, omega (arith, required, (set_vote-cast in_time).0))

-- Where voting is on and an item is named, a vote or its withdrawal leaves the unexpired votes under
-- every other key of a map of votes.
pub set_vote-other_item :
    (p : VotePolicy) (key item listener : String) (vote : Bool) (seen_at voted_at now : ℕ)
    (m : VoteManager) (other : String)
    → p.enabled ≡ true
    → item ≢ ""
    → IsMap m.votes
    → other ≢ key
    → votes_for other (set_vote p key item listener vote seen_at voted_at now m).0.votes
      ≡ prune p.timeout now (votes_for other m.votes)
unfolding set_vote record_vote touch
set_vote-other_item p key item listener vote seen_at voted_at now m other enabled named h n =
    let voters = recorded vote listener voted_at (votes_for key m.votes) in
    let cast = record_vote key listener vote voted_at (touch listener seen_at m) in
    ap (λ (r : VoteManager × SkipVoteState). votes_for other r.0.votes)
      (enabled_state p key item listener now cast enabled named)
    ∙ votes_for-prune_votes p.timeout now other (insert key voters m.votes)
        (insert-IsMap key voters m.votes h)
    ∙ ap (λ v. prune p.timeout now (or_empty v)) (lookup-insert_ne key other voters m.votes n)
