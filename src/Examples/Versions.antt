-- ===== src/Examples/Versions.antt =====
-- version/version.go on some versions.
use ssmlib.Common.{◌≡◌, refl, Bytes, codes, [], ◌∷◌, true, arith}
use ssmlib.Common.Int.{pos}
use ssmlib.Version.{split, atoi, supports_version}
use ssmlib.Version.Order.{Reads, LexLe, supports_version_iff}

abbrev older : Bytes
older = codes "1.1.70"

abbrev newer : Bytes
newer = codes "1.2.0"

older-Reads : Reads (split older) (pos 1 ∷ pos 1 ∷ pos 70 ∷ [])
unfolding split atoi
older-Reads = Reads.cons refl (Reads.cons refl (Reads.cons refl Reads.nil))

newer-Reads : Reads (split newer) (pos 1 ∷ pos 2 ∷ pos 0 ∷ [])
unfolding split atoi
newer-Reads = Reads.cons refl (Reads.cons refl (Reads.cons refl Reads.nil))

supports_version_iff_example : supports_version older newer ≡ true
supports_version_iff_example =
    (supports_version_iff older newer _ _ older-Reads newer-Reads).1
      (LexLe.same refl (LexLe.less (omega arith) refl))
