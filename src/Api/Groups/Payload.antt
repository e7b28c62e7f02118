-- ===== src/Api/Groups/Payload.antt =====
-- `membership_operation_payload` of services/core-api/src/lib.rs: what a signature covers.
use resilient_messenger.Prelude.{
  ℕ, ◌/◌, ◌%◌, ◌<◌, ◌^◌, ◌≡◌, refl, sym, ◌∙◌, Bool, true, false, [], ◌∷◌, ◌++◌, Bytes, codes, be16,
  append_assoc, append_cut, length, arith, if◌then◌else◌,
}
use resilient_messenger.Api.Groups.{membership_operation_payload}

flag_eq : (a b : Bool) → ◌≡◌ {A = ℕ} (if a then 1 else 0) (if b then 1 else 0) → a ≡ b
flag_eq true true e = refl
flag_eq false false e = refl
flag_eq true false e = absurd (omega (arith, e))
flag_eq false true e = absurd (omega (arith, e))

-- The payload, bracketed to the right.
pub flat :
    (c g a t : Bytes) (role : ℕ) (remove : Bool)
    → membership_operation_payload c g a t role remove
      ≡ codes "resilient/membership-operation/v1"
        ++ (c ++ (g ++ (a ++ (t ++ (be16 role ++ (if remove then 1 else 0) ∷ [])))))
unfolding membership_operation_payload
flat c g a t role remove = simp append_assoc

-- With identifiers of 16 bytes and roles that are i16 bit patterns, two requests with the same
-- payload are the same request: a signature covers every field.
pub membership_operation_payload-injective :
    (c c' g g' a a' t t' : Bytes) (role role' : ℕ) (remove remove' : Bool)
    → (length c ≡ 16) × (length c' ≡ 16)
    → (length g ≡ 16) × (length g' ≡ 16)
    → (length a ≡ 16) × (length a' ≡ 16)
    → (length t ≡ 16) × (length t' ≡ 16)
    → (role < 2 ^ 16) × (role' < 2 ^ 16)
    → membership_operation_payload c g a t role remove
      ≡ membership_operation_payload c' g' a' t' role' remove'
    → (c ≡ c') × (g ≡ g') × (a ≡ a') × (t ≡ t') × (role ≡ role') × (remove ≡ remove')
unfolding membership_operation_payload
membership_operation_payload-injective c c' g g' a a' t t' role role' remove remove' hc hg ha ht hr
      e =
    let tag = codes "resilient/membership-operation/v1" in
    let end = be16 role ++ (if remove then 1 else 0) ∷ [] in
    let end' = be16 role' ++ (if remove' then 1 else 0) ∷ [] in
    let after_a = t ++ end in
    let after_a' = t' ++ end' in
    let after_g = a ++ after_a in
    let after_g' = a' ++ after_a' in
    let after_c = g ++ after_g in
    let after_c' = g' ++ after_g' in
    let whole : tag ++ (c ++ after_c) ≡ tag ++ (c' ++ after_c') =
      sym (flat c g a t role remove) ∙ e ∙ flat c' g' a' t' role' remove' in
    let (_, e0) = append_cut tag tag (c ++ after_c) (c' ++ after_c') refl whole in
    let (c_is, e1) = append_cut c c' after_c after_c' (hc.0 ∙ sym hc.1) e0 in
    let (g_is, e2) = append_cut g g' after_g after_g' (hg.0 ∙ sym hg.1) e1 in
    let (a_is, e3) = append_cut a a' after_a after_a' (ha.0 ∙ sym ha.1) e2 in
    let (t_is, e4) = append_cut t t' end end' (ht.0 ∙ sym ht.1) e3 in
    let (r_is, e5) =
      append_cut (be16 role) (be16 role') ((if remove then 1 else 0) ∷ [])
        ((if remove' then 1 else 0) ∷ []) refl e4 in
    let high : role / 256 % 256 ≡ role' / 256 % 256 = cc in
    let low : role % 256 ≡ role' % 256 = cc in
    let last : ◌≡◌ {A = ℕ} (if remove then 1 else 0) (if remove' then 1 else 0) = cc in
    (c_is, g_is, a_is, t_is, omega (arith, high, low, hr.0, hr.1), flag_eq remove remove' last)
