-- ===== src/Proxy/Options/Valid.antt =====
-- proxy/src/options.rs: which options can be built.
use jrpxy.Prelude.{
  Bytes, true, [], ◌∷◌, ◌≡◌, ◌≢◌, ◌↔◌, refl, sym, ap, ◌∙◌, arith, all, some, none, Option-cases,
  Result-cases, ok, err, ok-injective, err-ne-ok, inl, inr, Bool-cases,
}
use jrpxy.Util.Parse.Tables.{is_valid_tchar}
use jrpxy.Proxy.Error.{illegal_received_by_byte}
use jrpxy.Proxy.Options.{ProxyOptions, find_illegal, validate_received_by, build}

find_illegal-none : (v : Bytes) → find_illegal v ≡ none → all is_valid_tchar v ≡ true
unfolding find_illegal
find_illegal-none [] h = refl
find_illegal-none (b ∷ r) h = elim (Bool-cases (is_valid_tchar b)) [
  | inl e ↦ rw e (find_illegal-none r (rw (← h, e)))
  | inr e ↦ let same : some b ≡ none = rw (← h, e) in cc
]

find_illegal_valid : (v : Bytes) → all is_valid_tchar v ≡ true → find_illegal v ≡ none
unfolding find_illegal
find_illegal_valid [] h = refl
find_illegal_valid (b ∷ r) h = ground (arith, find_illegal_valid r)

validate_received_by_iff :
    (v : Bytes) → (validate_received_by v ≡ ok tt) ↔ ((v ≢ []) × (all is_valid_tchar v ≡ true))
unfolding validate_received_by
validate_received_by_iff [] = (λ h. cc, λ h. absurd (h.0 refl))
validate_received_by_iff (b ∷ r) =
    (only_if, λ h. rw (validate_received_by, find_illegal_valid (b ∷ r) h.1) refl)
  where
    only_if :
        validate_received_by (b ∷ r) ≡ ok tt → ((b ∷ r) ≢ []) × (all is_valid_tchar (b ∷ r) ≡ true)
    only_if h = elim (Option-cases (find_illegal (b ∷ r))) [
      | inl e ↦ (λ k. cc, find_illegal-none (b ∷ r) e)
      | inr (x, e) ↦
          let same : err (illegal_received_by_byte x) ≡ ok tt =
            sym (rw (validate_received_by, e) refl) ∙ h in
          absurd (err-ne-ok same)
    ]

-- Options can be built exactly if `received_by` is a token: not empty, and made of `tchar` bytes. They are
-- then as they were set.
pub build_iff :
    (o o' : ProxyOptions)
    → (build o ≡ ok o')
      ↔ ((o' ≡ o) × (o.received_by ≢ []) × (all is_valid_tchar o.received_by ≡ true))
unfolding build
build_iff o o' = elim (Result-cases (validate_received_by o.received_by)) [
  | inl (_, e) ↦
      let (filled, chars) = (validate_received_by_iff o.received_by).0 e in
      let built : build o ≡ ok o = rw (build, e) refl in
      (λ h. (ok-injective (sym h ∙ built), filled, chars), λ h. built ∙ ap ok (sym h.0))
  | inr (x, e) ↦
      let failed : build o ≡ err x = rw (build, e) refl in
      (
        λ h. absurd (err-ne-ok (sym failed ∙ h)),
        λ h. absurd (err-ne-ok (sym e ∙ (validate_received_by_iff o.received_by).1 (h.1, h.2))),
      )
]
