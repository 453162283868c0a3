-- ===== src/Catalog/Coupon/Limits.antt =====
-- The redemption limits of a coupon, over any number of redemptions one after another.
use webrana_cloud.Base.{
  ◌==◌, Bool-cases, Option-cases, ==_refl, and_right, ℤ, pos, negsuc, leb_ℤ, ok, Result-cases,
  length, find, filter_where, some_where, find_sound, Number, Code, to_upper_case, ℕ, suc, ◌≡◌,
  refl, ◌∙◌, subst, inl, inr, Bool, true, false, not, ◌&&◌, ◌||◌, Option, none, some, List, [], ◌∷◌,
  arith,
}
use webrana_cloud.Catalog.Coupon.{
  Coupon, Tables, Accepted, has_id, has_code, redemptions_of, by_user, reached, check_found,
  validate_and_throw, create_redemption, redeem_coupon,
}

module _ (n : Number) where
  -- The ids of the coupons are unique, as the primary key demands.
  abbrev pub distinct : List (Coupon n) → Bool
  distinct [] = true
  distinct (c ∷ cs) = not (some_where (has_id n c.id) cs) && distinct cs

  -- `count` is at most the limit, or nothing is counted.
  abbrev pub within_limit : Option ℤ → ℕ → Bool
  within_limit none k = true
  within_limit (some limit) k = k == 0 || leb_ℤ (pos k) limit

  abbrev pub within_row : ℕ → Tables n → Option (Coupon n) → Bool
  within_row user s none = true
  within_row user s (some c) =
      within_limit c.max_total_redemptions (length (redemptions_of n c.id s))
      && within_limit c.max_redemptions_per_user
          (length (filter_where (by_user n user) (redemptions_of n c.id s)))

  -- The redemptions of coupon `i` respect its total limit, and those by `user` the limit per user.
  unfoldable pub within : ℕ → ℕ → Tables n → Bool
  within user i s = within_row user s (find (has_id n i) s.coupons)

  pub record Request : Type 0 where
    pub now : ℕ
    pub new : ℕ
    pub code : Code
    pub user : ℕ
    pub order : ℕ
    pub amount : n.Num

  -- Redemptions one after another, whichever of them are accepted.
  unfoldable pub redeem_all : List (Request) → Tables n → Tables n
  unfolding redeem_coupon
  redeem_all [] s = s
  redeem_all (r ∷ rs) s =
      (redeem_coupon n r.now r.new r.code r.user r.order r.amount (redeem_all rs s)).1

  none_where-find :
      (i : ℕ) (q : Coupon n → Bool) (cs : List (Coupon n)) {c : Coupon n}
      → find q cs ≡ some c
      → some_where (has_id n i) cs ≡ false
      → (c.id == i) ≡ false
  none_where-find i q [] h k = cc
  none_where-find i q (x ∷ xs) {c} h k = elim (Bool-cases (q x)) [
    | inl hit ↦
        let same : x ≡ c = cc (rw hit at h) in
        let unlike : has_id n i x ≡ false = ground (arith, k) in
        subst (λ y. (y.id == i) ≡ false) same unlike
    | inr miss ↦ none_where-find i q xs (rw miss at h) (ground (arith, k))
  ]

  -- So a coupon found in any way is the one that its id finds.
  pub find-has_id :
      (q : Coupon n → Bool) (cs : List (Coupon n)) {c : Coupon n}
      → distinct cs ≡ true
      → find q cs ≡ some c
      → find (has_id n c.id) cs ≡ some c
  find-has_id q [] d h = cc
  find-has_id q (x ∷ xs) {c} d h = elim (Bool-cases (q x)) [
    | inl hit ↦
        let same : x ≡ c = cc (rw hit at h) in
        let first : find (has_id n x.id) (x ∷ xs) ≡ some x = rw (==_refl x.id) refl in
        subst (λ y. find (has_id n y.id) (x ∷ xs) ≡ some y) same first
    | inr miss ↦
        let later : find q xs ≡ some c = rw miss at h in
        let other = none_where-find x.id q xs later (ground (arith, d)) in
        ground (arith, other, find-has_id q xs (ground (arith, d)) later)
  ]

  check_found-ok :
      (now u : ℕ) (x : n.Num) (s : Tables n) (c : Coupon n) {a : Accepted n}
      → check_found n now none (some u) x s c ≡ ok a
      → (a.accepted_id ≡ c.id)
        × (reached n c.max_total_redemptions (length (redemptions_of n c.id s)) ≡ false)
        × (reached n c.max_redemptions_per_user
              (length (filter_where (by_user n u) (redemptions_of n c.id s)))
            ≡ false)
  unfolding check_found
  check_found-ok now u x s c {a} h = ground (arith, h)

  within_limit-suc :
      (limit : Option ℤ) (k : ℕ) → reached n limit k ≡ false → within_limit limit (suc k) ≡ true
  within_limit-suc none k h = refl
  within_limit-suc (some (pos m)) k h = ground (arith, h)
  within_limit-suc (some (negsuc m)) k h = ground (arith, h)

  -- A row written for an accepted coupon keeps that coupon's limits, and those of the others.
  within-same :
      (new u order user : ℕ) (s : Tables n) (c : Coupon n) (a : Accepted n)
      → a.accepted_id ≡ c.id
      → reached n c.max_total_redemptions (length (redemptions_of n c.id s)) ≡ false
      → reached n c.max_redemptions_per_user
          (length (filter_where (by_user n u) (redemptions_of n c.id s)))
        ≡ false
      → within_row user s (some c) ≡ true
      → within_row user (create_redemption n new u order (ok a) s).1 (some c) ≡ true
  within-same new u order user s c a same total each v =
      let more_total =
        within_limit-suc c.max_total_redemptions (length (redemptions_of n c.id s)) total in
      let more_each =
        within_limit-suc c.max_redemptions_per_user
          (length (filter_where (by_user n u) (redemptions_of n c.id s))) each in
      rw same (
        rw (==_refl c.id) (
          rw more_total (elim (Bool-cases (u == user)) [
            | inl hit ↦
                let e : u ≡ user = ground (arith, hit) in
                rw hit (
                  subst
                    (λ y.
                      within_limit c.max_redemptions_per_user
                        (suc (length (filter_where (by_user n y) (redemptions_of n c.id s))))
                      ≡ true)
                    e more_each)
            | inr miss ↦ rw miss (and_right _ _ v)
          ])))

  within-other :
      (new u order user : ℕ) (s : Tables n) (c : Coupon n) (a : Accepted n)
      → (a.accepted_id == c.id) ≡ false
      → within_row user s (some c) ≡ true
      → within_row user (create_redemption n new u order (ok a) s).1 (some c) ≡ true
  within-other new u order user s c a other v = rw other v

  created-within :
      (now new u order user i : ℕ) (x : n.Num) (s : Tables n) (c : Coupon n) {a : Accepted n}
      → find (has_id n c.id) s.coupons ≡ some c
      → check_found n now none (some u) x s c ≡ ok a
      → within user i s ≡ true
      → within user i (create_redemption n new u order (ok a) s).1 ≡ true
  unfolding within
  created-within now new u order user i x s c {a} found good v =
      let (same, total, each) = check_found-ok now u x s c good in
      elim (Option-cases (find (has_id n i) s.coupons)) [
        | inl none_i ↦ rw none_i refl
        | inr (d, found_i) ↦ rw found_i (elim (Bool-cases (a.accepted_id == d.id)) [
          | inl hit ↦
              let at_i : c.id ≡ i =
                ground (arith, same, hit, find_sound (has_id n i) s.coupons found_i) in
              let alike : find (has_id n i) s.coupons ≡ some c =
                subst (λ j. find (has_id n j) s.coupons ≡ some c) at_i found in
              let v_c : within_row user s (some c) ≡ true = rw alike at v in
              let both : c ≡ d = cc (alike, found_i) in
              subst
                (λ y. within_row user (create_redemption n new u order (ok a) s).1 (some y) ≡ true)
                both (within-same new u order user s c a same total each v_c)
          | inr miss ↦ within-other new u order user s d a miss (rw found_i at v)
        ])
      ]

  redeem_coupon-within :
      (user i now new : ℕ) (code : Code) (u order : ℕ) (x : n.Num) (s : Tables n)
      → distinct s.coupons ≡ true
      → within user i s ≡ true
      → within user i (redeem_coupon n now new code u order x s).1 ≡ true
  unfolding redeem_coupon validate_and_throw
  redeem_coupon-within user i now new code u order x s d v =
      elim (Option-cases (find (has_code n (to_upper_case code)) s.coupons)) [
        | inl missing ↦ rw missing v
        | inr (c, found) ↦ rw found (elim (Result-cases (check_found n now none (some u) x s c)) [
          | inl (a, good) ↦ rw good (
              created-within now new u order user i x s c
                (find-has_id (has_code n (to_upper_case code)) s.coupons d found) good v)
          | inr (e, bad) ↦ rw bad v
        ])
      ]

  pub redeem_coupon-coupons :
      (now new : ℕ) (code : Code) (u order : ℕ) (x : n.Num) (s : Tables n)
      → (redeem_coupon n now new code u order x s).1.coupons ≡ s.coupons
  unfolding redeem_coupon
  redeem_coupon-coupons now new code u order x s =
      elim (Result-cases (validate_and_throw n now code none (some u) x s)) [
        | inl (a, good) ↦ rw good refl
        | inr (e, bad) ↦ rw bad refl
      ]

  redeem_all-coupons : (rs : List Request) (s : Tables n) → (redeem_all rs s).coupons ≡ s.coupons
  unfolding redeem_all
  redeem_all-coupons [] s = refl
  redeem_all-coupons (r ∷ rs) s =
      redeem_coupon-coupons r.now r.new r.code r.user r.order r.amount (redeem_all rs s)
      ∙ redeem_all-coupons rs s

  -- However many redemptions of whichever coupons are asked one after another, where the coupons'
  -- ids are distinct, a coupon whose total limit and limit per user hold at the start keeps both,
  -- for every user.
  pub redeem_all-within :
      (user i : ℕ) (rs : List Request) (s : Tables n)
      → distinct s.coupons ≡ true
      → within user i s ≡ true
      → within user i (redeem_all rs s) ≡ true
  unfolding redeem_all
  redeem_all-within user i [] s d v = v
  redeem_all-within user i (r ∷ rs) s d v =
      redeem_coupon-within user i r.now r.new r.code r.user r.order r.amount (redeem_all rs s)
        (rw (redeem_all-coupons rs s) d) (redeem_all-within user i rs s d v)
