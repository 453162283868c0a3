-- ===== src/Billing/Promo/Admin.antt =====
-- The administration of the promotions, in the promo service.
use webrana_cloud.Base.{
  ltb, if◌then◌else◌, given, ℤ, ok, err, update_row, count_where, some_where, delete_where,
  to_upper_case, ℕ, Bool, false, Option, ◌∷◌,
}
use webrana_cloud.Billing.Promo.{
  Promo, promo_id_not_found, promo_code_already_exists, promo_database_error, Promos, is_promo,
  with_code, of_promo,
}

-- `dto` is the row to create, its defaults filled in.
unfoldable pub create_promo : Promo → Promos Promo
create_promo dto s =
    let p = record dto { code = to_upper_case dto.code; current_uses = 0 } in
    if some_where (with_code (to_upper_case dto.code)) s.promos
    then (err promo_code_already_exists, s)
    else if some_where (is_promo dto.id) s.promos
    then (err promo_database_error, s)
    else (ok p, record s { promos = p ∷ s.promos })

-- `UpdatePromoDto`: what is left out stays as it is, and a null clears a column that may be null.
pub record UpdatePromo : Type 0 where
  pub new_bonus_value : Option ℤ
  pub new_min_deposit : Option (Option ℤ)
  pub new_max_bonus : Option (Option ℤ)
  pub new_end_at : Option ℕ
  pub new_max_total_uses : Option (Option ℕ)
  pub new_max_uses_per_user : Option ℕ
  pub new_is_active : Option Bool

abbrev pub updated : UpdatePromo → Promo → Promo
updated dto p = record p {
  bonus_value = given dto.new_bonus_value p.bonus_value;
  min_deposit = given dto.new_min_deposit p.min_deposit;
  max_bonus = given dto.new_max_bonus p.max_bonus;
  end_at = given dto.new_end_at p.end_at;
  max_total_uses = given dto.new_max_total_uses p.max_total_uses;
  max_uses_per_user = given dto.new_max_uses_per_user p.max_uses_per_user;
  is_active = given dto.new_is_active p.is_active;
}

unfoldable pub update_promo : ℕ → UpdatePromo → Promos (Unit {0})
update_promo i dto s =
    if some_where (is_promo i) s.promos
    then (ok tt, record s { promos = update_row (is_promo i) (updated dto) s.promos })
    else (err promo_id_not_found, s)

abbrev pub deactivated : Promo → Promo
deactivated p = record p { is_active = false }

-- A promo that was redeemed is deactivated, another one deleted.
unfoldable pub delete_promo : ℕ → Promos (Unit {0})
delete_promo i s =
    if some_where (is_promo i) s.promos
    then (if ltb 0 (count_where (of_promo i) s.redemptions)
        then (ok tt, record s { promos = update_row (is_promo i) deactivated s.promos })
        else (ok tt, record s { promos = delete_where (is_promo i) s.promos }))
    else (err promo_id_not_found, s)
