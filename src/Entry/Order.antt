-- ===== src/Entry/Order.antt =====
-- The comparison of keys is a total order, in which `NULL` is below every string.
use sdistr2020_group.Prelude.{
  ◌≡◌, refl, ap, sym, ◌∙◌, zero, suc, ℤ, ◌⊎◌, ◌↔◌, inl, inr, negsuc, Option, none, some, [], ◌∷◌,
  pos, lt, eq, gt, arith,
}
use sdistr2020_group.Entry.{Str, Entry, entry_compare, strcmp, sign, key_compare, key_order}

strcmp_refl : (a : Str) → strcmp a a ≡ pos 0
unfolding strcmp
strcmp_refl [] = refl
strcmp_refl (b ∷ s) = ground (arith, strcmp_refl s)

eq_of_strcmp : (a b : Str) → sign (strcmp a b) ≡ eq → a ≡ b
unfolding strcmp sign
eq_of_strcmp [] [] h = refl
eq_of_strcmp [] (y ∷ b) h = ground arith
eq_of_strcmp (x ∷ a) [] h = ground arith
eq_of_strcmp (x ∷ a) (y ∷ b) h = ground (arith, eq_of_strcmp a b)

lt_of_strcmp : (a b : Str) → sign (strcmp a b) ≡ gt → sign (strcmp b a) ≡ lt
unfolding strcmp sign
lt_of_strcmp [] [] h = ground arith
lt_of_strcmp [] (y ∷ b) h = ground arith
lt_of_strcmp (x ∷ a) [] h = ground arith
lt_of_strcmp (x ∷ a) (y ∷ b) h = ground (arith, lt_of_strcmp a b)

gt_of_strcmp : (a b : Str) → sign (strcmp a b) ≡ lt → sign (strcmp b a) ≡ gt
unfolding strcmp sign
gt_of_strcmp [] [] h = ground arith
gt_of_strcmp [] (y ∷ b) h = ground arith
gt_of_strcmp (x ∷ a) [] h = ground arith
gt_of_strcmp (x ∷ a) (y ∷ b) h = ground (arith, gt_of_strcmp a b)

strcmp_trans :
    (a b c : Str) → sign (strcmp a b) ≡ lt → sign (strcmp b c) ≡ lt → sign (strcmp a c) ≡ lt
unfolding strcmp sign
strcmp_trans [] b [] h k = ground (arith, gt_of_strcmp b [])
strcmp_trans [] b (z ∷ c) h k = refl
strcmp_trans (x ∷ a) [] c h k = ground arith
strcmp_trans (x ∷ a) (y ∷ b) [] h k = ground arith
strcmp_trans (x ∷ a) (y ∷ b) (z ∷ c) h k = ground (arith, strcmp_trans a b c)

pub key_order_refl : (a : Option Str) → key_order a a ≡ eq
unfolding key_order key_compare
key_order_refl none = refl
key_order_refl (some a) = ground (arith, strcmp_refl a)

pub eq_of_key_order : (a b : Option Str) → key_order a b ≡ eq → a ≡ b
unfolding key_order key_compare
eq_of_key_order none none h = refl
eq_of_key_order none (some b) h = ground arith
eq_of_key_order (some a) none h = ground arith
eq_of_key_order (some a) (some b) h = ground (arith, eq_of_strcmp a b)

pub lt_of_gt : (a b : Option Str) → key_order a b ≡ gt → key_order b a ≡ lt
unfolding key_order key_compare
lt_of_gt none none h = ground arith
lt_of_gt none (some b) h = ground arith
lt_of_gt (some a) none h = ground arith
lt_of_gt (some a) (some b) h = ground (arith, lt_of_strcmp a b)

pub gt_of_lt : (a b : Option Str) → key_order a b ≡ lt → key_order b a ≡ gt
unfolding key_order key_compare
gt_of_lt none none h = ground arith
gt_of_lt none (some b) h = ground arith
gt_of_lt (some a) none h = ground arith
gt_of_lt (some a) (some b) h = ground (arith, gt_of_strcmp a b)

pub lt_trans : (a b c : Option Str) → key_order a b ≡ lt → key_order b c ≡ lt → key_order a c ≡ lt
unfolding key_order key_compare
lt_trans none none c h k = ground arith
lt_trans none (some b) none h k = ground arith
lt_trans none (some b) (some c) h k = refl
lt_trans (some a) none c h k = ground arith
lt_trans (some a) (some b) none h k = ground arith
lt_trans (some a) (some b) (some c) h k = ground (arith, strcmp_trans a b c)

key_compare_values :
    (a b : Option Str)
    → (key_compare a b ≡ negsuc 0) ⊎ ((key_compare a b ≡ pos 0) ⊎ (key_compare a b ≡ pos 1))
unfolding key_compare
key_compare_values none none = inr (inl refl)
key_compare_values none (some b) = inl refl
key_compare_values (some a) none = inr (inr refl)
key_compare_values (some a) (some b) = ground arith

zero_of_sign : (z : ℤ) → sign z ≡ eq → z ≡ pos 0
unfolding sign
zero_of_sign (pos zero) h = refl
zero_of_sign (pos (suc n)) h = cc
zero_of_sign (negsuc n) h = cc

below_of_order : (a b : Option Str) → key_order a b ≡ lt → key_compare a b ≡ negsuc 0
unfolding key_order
below_of_order a b h = ground (arith, key_compare_values a b, h)

above_of_order : (a b : Option Str) → key_order a b ≡ gt → key_compare a b ≡ pos 1
unfolding key_order
above_of_order a b h = ground (arith, key_compare_values a b, h)

-- Of two entries `entry_compare` answers -1, 0 or 1; it answers 0 exactly when the keys are equal,
-- and -1 exactly when it answers 1 for the entries the other way round.
pub entry_compare_order :
    (e1 e2 : Entry)
    → ((entry_compare (some e1) (some e2) ≡ negsuc 0)
        ⊎ ((entry_compare (some e1) (some e2) ≡ pos 0)
            ⊎ (entry_compare (some e1) (some e2) ≡ pos 1)))
      × ((entry_compare (some e1) (some e2) ≡ pos 0) ↔ (e1.key ≡ e2.key))
      × ((entry_compare (some e1) (some e2) ≡ negsuc 0)
          ↔ (entry_compare (some e2) (some e1) ≡ pos 1))
unfolding entry_compare key_order
entry_compare_order e1 e2 = (
  key_compare_values e1.key e2.key,
  (
    λ h. eq_of_key_order e1.key e2.key (ap sign h),
    λ h. zero_of_sign _ (ap (key_order e1.key) (sym h) ∙ key_order_refl e1.key),
  ),
  (
    λ h. above_of_order e2.key e1.key (gt_of_lt e1.key e2.key (ap sign h)),
    λ h. below_of_order e1.key e2.key (lt_of_gt e2.key e1.key (ap sign h)),
  ),
)
