-- ===== src/Protocol/Packet/XxHash.antt =====
-- The hash of github.com/OneOfOne/xxhash that protocol/protocol.go uses, for the tests.
use dracula.Protocol.Packet.{Hasher}
use dracula.Prelude.{[], ◌∷◌, ◌++◌, refl}

-- The 64-bit xxhash of the empty input, as `Sum` appends it.
instance abbrev pub xx_hash : Hasher
xx_hash = record {
  sum = λ b. b ++ (0xef ∷ 0x46 ∷ 0xdb ∷ 0x37 ∷ 0x51 ∷ 0xd8 ∷ 0xe9 ∷ 0x99 ∷ []);
  digest = 0xef ∷ 0x46 ∷ 0xdb ∷ 0x37 ∷ 0x51 ∷ 0xd8 ∷ 0xe9 ∷ 0x99 ∷ [];
  length-digest = refl;
  sum_appends = λ b. refl;
}
