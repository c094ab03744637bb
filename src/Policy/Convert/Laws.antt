-- ===== src/Policy/Convert/Laws.antt =====
-- The recursion of parsePEMKey has fuel enough.
use cosign.Base.{ℕ, zero, suc, ◌<◌, String, some}
use cosign.Base.{◌≡◌, arith, Option-cases, inl, inr}
use cosign.World.{World}
use cosign.Policy.Convert.{text_length, parse_pem_key}

module _ (w : World) where
  -- What `pem.Decode` leaves is shorter than what it was given.
  abbrev pub DecodeShrinks : Type 0
  DecodeShrinks =
      (s block rest : String)
      → w.pem_decode s ≡ some (block, rest)
      → text_length rest < text_length s

  -- Where decoding a block shortens the text, any two amounts of fuel that exceed the length of
  -- the text give the same blocks: the recursion has ended.
  pub parse_pem_key-fuel :
      (shrinks : DecodeShrinks) (s : String) (n m : ℕ)
      → text_length s < n
      → text_length s < m
      → parse_pem_key w n s ≡ parse_pem_key w m s
  unfolding parse_pem_key
  parse_pem_key-fuel shrinks s zero m h k = elim h [ ]
  parse_pem_key-fuel shrinks s (suc n) zero h k = elim k [ ]
  parse_pem_key-fuel shrinks s (suc n) (suc m) h k = elim (Option-cases (w.pem_decode s)) [
    | inl e ↦ ground arith
    | inr ((block, rest), e) ↦
        let d = shrinks s block rest e in
        let ih = parse_pem_key-fuel shrinks rest n m (omega arith) (omega arith) in ground arith
  ]
