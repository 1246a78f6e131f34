-- ===== src/Fingerprint.antt =====
-- veriproof/services/image_fingerprint.py: the comparison of two fingerprints. The hashes that an
-- image has, which Pillow and floating-point numbers make, are given.
pub mod Hamming
use Prim.Native.Nat.{bit_xor}
use veri_proof_hackerton.Prelude.{
  ℕ, zero, suc, ◌+◌, ◌*◌, ◌/◌, ◌%◌, String, Bool, true, false, not, Option, none, some, List, [],
  ◌∷◌, map, any, length, leb, ltb, nat_eq, ◌==◌, ◌||◌, ◌&&◌, if◌then◌else◌, append_text,
}

abbrev pub digit : Bool → ℕ
digit false = 0
digit true = 1

-- `out = (out << 1) | int(bit)` over the rest of the bits
abbrev pub bits_after : ℕ → List Bool → ℕ
bits_after out [] = out
bits_after out (bit ∷ bits) = bits_after (out * 2 + digit bit) bits

-- `_bits_to_int`
unfoldable pub bits_to_int : List Bool → ℕ
bits_to_int = bits_after 0

-- `int.bit_count`: the sum of the binary digits, with fuel for as many digits as the number says.
abbrev pub count_digits : ℕ → ℕ → ℕ
count_digits zero n = 0
count_digits (suc fuel) zero = 0
count_digits (suc fuel) (suc n) = count_digits fuel (suc n / 2) + suc n % 2

abbrev pub bit_count : ℕ → ℕ
bit_count n = count_digits n n

-- `_hamming`
unfoldable pub hamming : ℕ → ℕ → ℕ
hamming left right = bit_count (bit_xor left right)

pub record ImageFingerprint : Type 0 where
  pub file_sha256 : String
  pub canonical_sha256 : String
  pub phash : String
  pub dhash : String
  pub whash : String
  pub tile_phash : List String

pub data Verdict : Type 0 where
  exact_file same_pixels visually_similar possible_partial different : Verdict

pub record ImageFingerprintMatch : Type 0 where
  pub verdict : Verdict
  pub file_sha256_match : Bool
  pub canonical_sha256_match : Bool
  pub phash_distance : ℕ
  pub dhash_distance : ℕ
  pub whash_distance : ℕ
  pub tile_hits : ℕ
  pub orientation_index : ℕ

-- `is_match`
abbrev pub is_match : ImageFingerprintMatch → Bool
is_match m = elim m.verdict [ different ↦ false | _ ↦ true ]

abbrev pub t_identical_visual : ℕ
t_identical_visual = 2

abbrev pub t_derived_visual : ℕ
t_derived_visual = 10

abbrev pub t_tile : ℕ
t_tile = 8

abbrev pub min_tile_hits : ℕ
min_tile_hits = 2

-- The number of stored tiles that some probe is near to.
unfoldable pub tile_hits_of : List ℕ → List ℕ → ℕ
unfolding hamming
tile_hits_of candidate [] = 0
tile_hits_of candidate (stored ∷ original) =
    let rest : ℕ = tile_hits_of candidate original in
    if any (λ probe. leb (hamming probe stored) t_tile) candidate then suc rest else rest

-- The least distance with its first index, among those that follow the best so far.
abbrev pub nearest : ℕ → ℕ × ℕ → ℕ → List ℕ → ℕ × ℕ
nearest target best index [] = best
nearest target best index (value ∷ values) =
    let later : ℕ × ℕ → ℕ × ℕ = λ b. nearest target b (suc index) values in
    later (if ltb (hamming value target) best.0 then (hamming value target, index) else best)

unfoldable pub verdict_of : ℕ → ℕ → ℕ → Verdict
verdict_of distance orientation hits =
    if leb distance t_identical_visual
    then (if nat_eq orientation 0 then same_pixels else visually_similar)
    else if leb distance t_derived_visual
    then visually_similar
    else if leb min_tile_hits hits
    then possible_partial
    else different

abbrev same : Verdict → Bool → Bool → ImageFingerprintMatch
same verdict file canonical = record {
  verdict = verdict;
  file_sha256_match = file;
  canonical_sha256_match = canonical;
  phash_distance = 0;
  dhash_distance = 0;
  whash_distance = 0;
  tile_hits = 0;
  orientation_index = 0;
}

abbrev visual : (String → ℕ) → ImageFingerprint → ImageFingerprint → ℕ × ℕ → ImageFingerprintMatch
visual of_hex original candidate (distance, orientation) =
    let hits : ℕ =
      tile_hits_of (map of_hex candidate.tile_phash) (map of_hex original.tile_phash) in
    record {
      verdict = verdict_of distance orientation hits;
      file_sha256_match = false;
      canonical_sha256_match = false;
      phash_distance = distance;
      dhash_distance = hamming (of_hex candidate.dhash) (of_hex original.dhash);
      whash_distance = hamming (of_hex candidate.whash) (of_hex original.whash);
      tile_hits = hits;
      orientation_index = orientation;
    }

-- The hashes of the candidate's orientations: its own, or, where its bytes are given, those of the
-- eight turned and mirrored images, of which the first is given apart.
abbrev first_hash : (String → ℕ) → ImageFingerprint → Option (ℕ × List ℕ) → ℕ × List ℕ
first_hash of_hex candidate none = (of_hex candidate.phash, [])
first_hash of_hex candidate (some hashes) = hashes

-- `compare`, with `int(text, 16)`.
unfoldable pub compare :
    (String → ℕ) → ImageFingerprint → ImageFingerprint → Option (ℕ × List ℕ) → ImageFingerprintMatch
unfolding hamming tile_hits_of verdict_of
compare of_hex original candidate orientations =
    let file : Bool = candidate.file_sha256 == original.file_sha256 in
    let canonical : Bool = candidate.canonical_sha256 == original.canonical_sha256 in
    let target : ℕ = of_hex original.phash in
    let (value, values) = first_hash of_hex candidate orientations in
    if file
    then same exact_file file canonical
    else if canonical
    then same same_pixels file canonical
    else visual of_hex original candidate (nearest target (hamming value target, 0) 1 values)

abbrev joined_after : String → List String → String
joined_after text [] = text
joined_after text (h ∷ hashes) = joined_after (append_text text (append_text "\n" h)) hashes

-- `manifest_sha256`, with the SHA-256 of a text.
unfoldable pub manifest_sha256 : (String → String) → List String → String
manifest_sha256 sha256 [] = sha256 ""
manifest_sha256 sha256 (h ∷ []) = h
manifest_sha256 sha256 (h ∷ h' ∷ hashes) = sha256 (joined_after h (h' ∷ hashes))
