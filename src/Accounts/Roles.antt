-- ===== src/Accounts/Roles.antt =====
-- What a change of role does to the number of administrators.
use raspi_media_player.Base.{
  ℕ, suc, ◌+◌, ◌≤◌, String, Bool, true, false, ◌≡◌, ◌≢◌, refl, Option, none, some, List, [], ◌∷◌,
  All, All-imp, Differ, ap, map, count, first, Bool-cases, inl, inr, same, same_ne, eq_iff, sym,
  ◌∙◌, if◌then◌else◌, arith,
}
use raspi_media_player.Accounts.Rows.{Account}
use raspi_media_player.Accounts.Store.{has_account, is_administrator, with_role}

abbrev pub one_if : Bool → ℕ
one_if true = 1
one_if false = 0

abbrev was : Option Account → ℕ
was none = 0
was (some u) = one_if u.administrator

with_role-absent :
    (id : String) (b : Bool) (users : List Account)
    → All (λ (u : Account). u.id ≢ id) users
    → map (with_role id b) users ≡ users
with_role-absent id b [] h = refl
with_role-absent id b (u ∷ users) h = rw (same_ne u.id id h.0, with_role-absent id b users h.1) refl

count-cons :
    (u : Account) (users : List Account)
    → count is_administrator (u ∷ users) ≡ one_if u.administrator + count is_administrator users
count-cons u users = go u.administrator
  where
    go :
        (b : Bool)
        → (if b then suc (count is_administrator users) else count is_administrator users)
          ≡ one_if b + count is_administrator users
    go true = omega arith
    go false = omega arith

module _ (id : String) (b : Bool) where
  with_role-own : (u : Account) → same u.id id ≡ true → (with_role id b u).administrator ≡ b
  with_role-own u e = rw e refl

  with_role-other : (u : Account) → same u.id id ≡ false → with_role id b u ≡ u
  with_role-other u e = rw e refl

  -- Only the role of the one account changes.
  pub count-with_role :
      (u : Account) (users : List Account)
      → Differ (λ (v : Account). v.id) users
      → first (has_account id) users ≡ some u
      → count is_administrator (map (with_role id b) users) + one_if u.administrator
        ≡ count is_administrator users + one_if b
  count-with_role u [] d h = cc h
  count-with_role u (v ∷ users) d h = elim (Bool-cases (same v.id id)) [
    | inl e ↦
        let found : some v ≡ some u = sym (rw e refl) ∙ h in
        let others : All (λ (w : Account). w.id ≢ id) users =
          All-imp users (λ w differs p. differs (p ∙ sym ((eq_iff v.id id).0 e))) d.0 in
        omega (
          arith,
          count-cons (with_role id b v) (map (with_role id b) users),
          count-cons v users,
          ap one_if (with_role-own v e),
          ap (count is_administrator) (with_role-absent id b users others),
          ap was found,
        )
    | inr e ↦ omega (
      arith,
      count-cons (with_role id b v) (map (with_role id b) users),
      count-cons v users,
      ap (λ (w : Account). one_if w.administrator) (with_role-other v e),
      count-with_role u users d.1 (rw e at h),
    )
  ]

  pub with_role-count_le :
      (users : List Account)
      → b ≡ true
      → count is_administrator users ≤ count is_administrator (map (with_role id b) users)
  with_role-count_le [] t = omega arith
  with_role-count_le (u ∷ users) t = ground (arith, with_role-count_le users t)

  -- The other columns stay.
  pub with_role-keeps :
      (u : Account)
      → ((with_role id b u).id ≡ u.id) × ((with_role id b u).username_key ≡ u.username_key)
  with_role-keeps u = ground arith
