-- ===== src/Catalog/Coupon/Admin/Unique.antt =====
-- Coupons keep distinct codes in upper case, so a code names one coupon in any case.
use webrana_cloud.Base.{
  if◌then◌else◌, is_some, Bool-cases, err, find, update_row, some_where, delete_where, Number, Code,
  to_upper_case, ◌=c=◌, to_upper_case_idem, =c=_refl, ℕ, ◌≡◌, refl, inl, inr, Bool, true, false,
  not, ◌&&◌, List, [], ◌∷◌, arith,
}
use webrana_cloud.Catalog.Coupon.{Coupon, Tables, has_id, has_code, redeem_coupon}
use webrana_cloud.Catalog.Coupon.Limits.{redeem_coupon-coupons}
use webrana_cloud.Catalog.Coupon.Admin.{
  coupon_missing, write_coupons, create_coupon, Changes, changed, has_coupon, update_coupon,
  delete_coupon, with_plan, without_plan, with_user, without_user, add_coupon_plan, add_coupon_user,
  remove_coupon_plan, remove_coupon_user,
}

module _ (n : Number) where
  -- Each code is in upper case and stands in one row.
  unfoldable pub codes_valid : List (Coupon n) → Bool
  codes_valid [] = true
  codes_valid (c ∷ cs) =
      let rest = codes_valid cs in
      to_upper_case c.code =c= c.code && not (some_where (has_code n c.code) cs) && rest

  -- A call of a method that writes.
  pub data CouponCall : Type 0 where
    create : Bool → Coupon n → CouponCall
    update : Bool → ℕ → Changes n → CouponCall
    delete : Bool → ℕ → CouponCall
    add_plan remove_plan add_user remove_user : Bool → ℕ → ℕ → CouponCall
    redeem : (now new : ℕ) → Code → (user order : ℕ) → n.Num → CouponCall

  abbrev pub coupon_call : CouponCall → Tables n → Tables n
  coupon_call (create saved c) s = (create_coupon n saved c s).1
  coupon_call (update saved i d) s = (update_coupon n saved i d s).1
  coupon_call (delete saved i) s = (delete_coupon n saved i s).1
  coupon_call (add_plan saved i x) s = (add_coupon_plan n saved i x s).1
  coupon_call (remove_plan saved i x) s = (remove_coupon_plan n saved i x s).1
  coupon_call (add_user saved i x) s = (add_coupon_user n saved i x s).1
  coupon_call (remove_user saved i x) s = (remove_coupon_user n saved i x s).1
  coupon_call (redeem now new code user order amount) s =
      (redeem_coupon n now new code user order amount s).1

  abbrev pub coupon_calls : List CouponCall → Tables n → Tables n
  coupon_calls [] s = s
  coupon_calls (c ∷ cs) s = coupon_calls cs (coupon_call c s)

  some_where-update_row :
      (q : Code) (i : ℕ) (f : Coupon n → Coupon n) (cs : List (Coupon n))
      → ((c : Coupon n) → (f c).code ≡ c.code)
      → some_where (has_code n q) (update_row (has_id n i) f cs) ≡ some_where (has_code n q) cs
  some_where-update_row q i f [] key = refl
  some_where-update_row q i f (c ∷ cs) key = elim (Bool-cases (has_id n i c)) [
    | inl hit ↦ rw hit (rw (key c) refl)
    | inr miss ↦ rw miss (rw (some_where-update_row q i f cs key) refl)
  ]

  codes_valid-update_row :
      (i : ℕ) (f : Coupon n → Coupon n) (cs : List (Coupon n))
      → ((c : Coupon n) → (f c).code ≡ c.code)
      → codes_valid cs ≡ true
      → codes_valid (update_row (has_id n i) f cs) ≡ true
  unfolding codes_valid
  codes_valid-update_row i f [] key v = refl
  codes_valid-update_row i f (c ∷ cs) key v = elim (Bool-cases (has_id n i c)) [
    | inl hit ↦ rw hit (rw (key c) v)
    | inr miss ↦ rw miss (
        rw (some_where-update_row c.code i f cs key)
          (ground (arith, v, codes_valid-update_row i f cs key (ground (arith, v)))))
  ]

  some_where-delete_where :
      (q : Code) (p : Coupon n → Bool) (cs : List (Coupon n))
      → some_where (has_code n q) cs ≡ false
      → some_where (has_code n q) (delete_where p cs) ≡ false
  some_where-delete_where q p [] h = refl
  some_where-delete_where q p (c ∷ cs) h =
      ground (arith, h, some_where-delete_where q p cs (ground (arith, h)))

  codes_valid-delete_where :
      (p : Coupon n → Bool) (cs : List (Coupon n))
      → codes_valid cs ≡ true
      → codes_valid (delete_where p cs) ≡ true
  unfolding codes_valid
  codes_valid-delete_where p [] v = refl
  codes_valid-delete_where p (c ∷ cs) v = ground (
    arith,
    v,
    some_where-delete_where c.code p cs (ground (arith, v)),
    codes_valid-delete_where p cs (ground (arith, v)),
  )

  find-none-some_where :
      (q : Code) (cs : List (Coupon n))
      → is_some (find (has_code n q) cs) ≡ false
      → some_where (has_code n q) cs ≡ false
  find-none-some_where q [] h = refl
  find-none-some_where q (c ∷ cs) h = elim (Bool-cases (has_code n q c)) [
    | inl hit ↦ cc (rw hit at h)
    | inr miss ↦ rw miss (find-none-some_where q cs (rw miss at h))
  ]

  abbrev pub AreValid : Tables n → Type 0
  AreValid s = codes_valid s.coupons ≡ true

  write_coupons-AreValid :
      (saved : Bool) (cs : List (Coupon n)) (s : Tables n)
      → codes_valid cs ≡ true
      → AreValid s
      → AreValid (write_coupons n saved cs s).1
  write_coupons-AreValid true cs s new v = new
  write_coupons-AreValid false cs s new v = v

  -- A write to one coupon's other columns, under any guard.
  guarded-AreValid :
      (guard saved : Bool) (i : ℕ) (f : Coupon n → Coupon n) (s : Tables n)
      → ((c : Coupon n) → (f c).code ≡ c.code)
      → AreValid s
      → AreValid
          (if guard
            then write_coupons n saved (update_row (has_id n i) f s.coupons) s
            else (err coupon_missing, s)).1
  guarded-AreValid true saved i f s key v =
      write_coupons-AreValid saved (update_row (has_id n i) f s.coupons) s
        (codes_valid-update_row i f s.coupons key v) v
  guarded-AreValid false saved i f s key v = v

  create_coupon-AreValid :
      (saved : Bool) (c : Coupon n) (s : Tables n)
      → AreValid s
      → AreValid (create_coupon n saved c s).1
  unfolding create_coupon
  create_coupon-AreValid saved c s v =
      elim (Bool-cases (is_some (find (has_code n (to_upper_case c.code)) s.coupons))) [
        | inl taken ↦ rw taken v
        | inr free ↦ rw free (
            write_coupons-AreValid saved (record c { code = to_upper_case c.code } ∷ s.coupons) s
              (unfold codes_valid in
                rw (to_upper_case_idem c.code) (
                  rw (=c=_refl (to_upper_case c.code))
                    (rw (find-none-some_where (to_upper_case c.code) s.coupons free) v)))
              v)
      ]

  delete_coupon-AreValid :
      (saved : Bool) (i : ℕ) (s : Tables n) → AreValid s → AreValid (delete_coupon n saved i s).1
  unfolding delete_coupon
  delete_coupon-AreValid saved i s v = elim (Bool-cases (has_coupon n i s)) [
    | inl found ↦ rw found (elim (Bool-cases saved) [
      | inl done ↦ rw done (codes_valid-delete_where (has_id n i) s.coupons v)
      | inr fails ↦ rw fails v
    ])
    | inr missing ↦ rw missing v
  ]

  coupon_call-AreValid : (c : CouponCall) (s : Tables n) → AreValid s → AreValid (coupon_call c s)
  unfolding update_coupon add_coupon_plan remove_coupon_plan add_coupon_user remove_coupon_user
  coupon_call-AreValid (create saved c) s v = create_coupon-AreValid saved c s v
  coupon_call-AreValid (update saved i d) s v =
      guarded-AreValid (has_coupon n i s) saved i (changed n d) s (λ c. refl) v
  coupon_call-AreValid (delete saved i) s v = delete_coupon-AreValid saved i s v
  coupon_call-AreValid (add_plan saved i x) s v =
      guarded-AreValid (has_coupon n i s) _ i (with_plan n x) s (λ c. refl) v
  coupon_call-AreValid (remove_plan saved i x) s v =
      guarded-AreValid true _ i (without_plan n x) s (λ c. refl) v
  coupon_call-AreValid (add_user saved i x) s v =
      guarded-AreValid (has_coupon n i s) _ i (with_user n x) s (λ c. refl) v
  coupon_call-AreValid (remove_user saved i x) s v =
      guarded-AreValid true _ i (without_user n x) s (λ c. refl) v
  coupon_call-AreValid (redeem now new code user order amount) s v =
      rw (redeem_coupon-coupons n now new code user order amount s) v

  -- After any calls of the coupon service, one after another, on coupons whose codes are distinct and
  -- in upper case, the codes still are, whether the calls succeed, are refused, or fail in the
  -- database.
  pub coupon_calls-AreValid :
      (cs : List CouponCall) (s : Tables n) → AreValid s → AreValid (coupon_calls cs s)
  coupon_calls-AreValid [] s v = v
  coupon_calls-AreValid (c ∷ cs) s v =
      coupon_calls-AreValid cs (coupon_call c s) (coupon_call-AreValid c s v)
