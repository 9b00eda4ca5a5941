-- ===== src/PeerShare/Records.antt =====
-- The TXT records of an advertisement.
use bonded.Prelude.Map.{lookup}
use bonded.Prelude.Decimal.{parse-print}
use bonded.Prelude.Texts.{split, join, Lacks, split-join}
use bonded.PeerShare.{PeerShareAdvertisement, txt_records, nonempty, from_txt_record_map}
use bonded.Prelude.{
  ◌^◌, ◌<◌, ◌≡◌, ◌≢◌, refl, ap, ◌∙◌, List, [], ◌∷◌, Text, text_eq, text_beq, ascii, ok, All, arith,
}

nonempty-All : (parts : List Text) → All (λ p. p ≢ []) parts → nonempty parts ≡ parts
unfolding nonempty
nonempty-All [] w = refl
nonempty-All ([] ∷ parts) w = absurd (w.0 refl)
nonempty-All ((c ∷ cs) ∷ parts) w = ap (λ ps. (c ∷ cs) ∷ ps) (nonempty-All parts w.1)

-- No capability is empty or holds a comma.
abbrev pub IsPlain : List Text → Type 0
IsPlain parts = All (Lacks 44) parts × All (λ (p : Text). p ≢ []) parts

capabilities_back :
    (parts : List Text) → IsPlain parts → nonempty (split 44 (join (ascii ",") parts)) ≡ parts
unfolding nonempty split join
capabilities_back [] w = refl
capabilities_back (p ∷ ps) w = ap nonempty (split-join 44 p ps w.0) ∙ nonempty-All (p ∷ ps) w.1

read_back :
    (ad : PeerShareAdvertisement)
    → ad.version < 2 ^ 16
    → nonempty (split 44 (join (ascii ",") ad.capabilities)) ≡ ad.capabilities
    → from_txt_record_map (txt_records ad) ≡ ok ad
unfolding from_txt_record_map txt_records lookup text_beq
read_back ad h back = let v = parse-print (2 ^ 16) ad.version h in ground arith

-- An advertisement whose version fits a u16 and whose capabilities are plain is read back from its own
-- TXT records.
pub from_txt_record_map-txt_records :
    (ad : PeerShareAdvertisement)
    → ad.version < 2 ^ 16
    → IsPlain ad.capabilities
    → from_txt_record_map (txt_records ad) ≡ ok ad
from_txt_record_map-txt_records ad h w = read_back ad h (capabilities_back ad.capabilities w)
