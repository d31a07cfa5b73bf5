-- ===== src/Traversal/Pcp/Mapped.antt =====
-- internal/traversal/pcp/pcp.go: IPv4 addresses in the sixteen bytes that PCP carries.
use anti_nat_agent.Base.{
  ℕ, ◌≡◌, refl, [], ◌∷◌, ◌++◌, ok, Returns, Bytes, arith, replicate, length, slice_ok, index_ok,
  Bool-cases, inl, inr, chunk, length-chunk, slice, index, ◌==◌, not, get_or, ◌&&◌,
}
use anti_nat_agent.Protocol.Endpoint.{v4}
use anti_nat_agent.Traversal.Pcp.{Error, v4_mapped, mapped_to_v4, addr_from_4, all_zero}

-- An IPv4 address is read back from its mapped form, and from the IPv4-compatible form.
pub mapped_to_v4-v4_mapped :
    (a b c d : ℕ)
    → (mapped_to_v4 (v4_mapped (v4 a b c d)) ≡ ok (v4 a b c d))
      × (mapped_to_v4 (replicate 12 0 ++ (a ∷ b ∷ c ∷ d ∷ [])) ≡ ok (v4 a b c d))
unfolding mapped_to_v4 slice index
mapped_to_v4-v4_mapped a b c d = (refl, refl)

from_4-Returns : (bs : Bytes) → length bs ≡ 4 → Returns (addr_from_4 bs)
from_4-Returns (a ∷ b ∷ c ∷ d ∷ []) h = tt
from_4-Returns [] h = absurd (omega arith)
from_4-Returns (a ∷ []) h = absurd (omega arith)
from_4-Returns (a ∷ b ∷ []) h = absurd (omega arith)
from_4-Returns (a ∷ b ∷ c ∷ []) h = absurd (omega arith)
from_4-Returns (a ∷ b ∷ c ∷ d ∷ e ∷ bs) h = absurd (omega arith)

-- No field makes the decoder of mapped addresses panic.
pub mapped_to_v4-Returns : (field : Bytes) → Returns (mapped_to_v4 field)
unfolding mapped_to_v4
mapped_to_v4-Returns field = elim (Bool-cases (not (length field == 16))) [
  | inl e ↦ rw e tt
  | inr e ↦
      let l : length field ≡ 16 = ground arith in
      let last = from_4-Returns (chunk 12 4 field) (length-chunk 12 4 field (omega arith)) in
      rw
        (
          e,
          index_ok {E = Error} field 10 (omega arith),
          index_ok {E = Error} field 11 (omega arith),
          slice_ok {E = Error} field 12 16 (omega arith) (omega arith),
          slice_ok {E = Error} field 0 12 (omega arith) (omega arith),
        )
        (elim (Bool-cases ((get_or field 10 0 == 0xff) && (get_or field 11 0 == 0xff))) [
          | inl f ↦ rw f last
          | inr f ↦ rw f (elim (Bool-cases (all_zero (chunk 0 12 field))) [
            | inl g ↦ rw g last
            | inr g ↦ rw g tt
          ])
        ])
]
