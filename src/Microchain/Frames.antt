-- ===== src/Microchain/Frames.antt =====
-- `parse_flush_anchor`: the data it takes, and what it reads.
use aii.Base.{
  ◌≢◌, false, ℕ, ◌+◌, ◌^◌, ◌<◌, ◌≡◌, ◌↔◌, refl, ap, ap₂, sym, ◌∙◌, subst, List, [], ◌∷◌, ◌++◌, some,
  true, Bool-cases, inl, inr, ◌==◌, ◌&&◌, arith, length, take, drop, All, length-append,
  take-length_append, drop-length_append, to_be_bytes, from_be_bytes, length-to_be_bytes,
  from_be_bytes-to_be_bytes, to_be_bytes-from_be_bytes,
}
use aii.Base.Slices.{take-drop, take-all, All-take, All-drop, split_lengths, drop-drop}
use aii.Microchain.{FlushTxPayload, flush_tx_magic, starts_with, parse_flush_anchor}

-- The frame that the docs of `parse_flush_anchor` draw.
abbrev pub flush_frame : FlushTxPayload → List ℕ
flush_frame p =
    flush_tx_magic
    ++ (to_be_bytes 4 p.sub_chain_id
        ++ (to_be_bytes 32 p.sub_block_hash ++ to_be_bytes 8 p.sub_block_number))

-- The widths of the fields.
pub record Fits (p : FlushTxPayload) : Type 0 where
  pub id : p.sub_chain_id < 256 ^ 4
  pub hash : p.sub_block_hash < 256 ^ 32
  pub number : p.sub_block_number < 256 ^ 8

starts_with-append :
    (bytes magic : List ℕ)
    → starts_with bytes magic ≡ true
    → bytes ≡ magic ++ drop (length magic) bytes
unfolding starts_with
starts_with-append bytes [] h = refl
starts_with-append [] (m ∷ magic) h = ground (arith, h)
starts_with-append (b ∷ bytes) (m ∷ magic) h =
    let first : b ≡ m = ground (arith, h) in
    let rest : starts_with bytes magic ≡ true = ground (arith, h) in
    ap₂ (λ x xs. x ∷ xs) first (starts_with-append bytes magic rest)

-- What the fields are read from, after the magic.
abbrev fields : List ℕ → FlushTxPayload
fields rest = record {
  sub_chain_id = from_be_bytes (take 4 rest);
  sub_block_hash = from_be_bytes (take 32 (drop 4 rest));
  sub_block_number = from_be_bytes (take 8 (drop 32 (drop 4 rest)));
}

fields-frame :
    (rest : List ℕ)
    → length rest ≡ 44
    → All (λ b. b < 256) rest
    → flush_tx_magic ++ rest ≡ flush_frame (fields rest)
fields-frame rest count all =
    let (l4, l40) = split_lengths 4 40 rest count in
    let (l32, l8) = split_lengths 32 8 (drop 4 rest) l40 in
    let tail = drop 32 (drop 4 rest) in
    let all40 = All-drop _ 4 rest all in
    let id = to_be_bytes-from_be_bytes 4 (take 4 rest) l4 (All-take _ 4 rest all) in
    let hash =
      to_be_bytes-from_be_bytes 32 (take 32 (drop 4 rest)) l32
        (All-take _ 32 (drop 4 rest) all40) in
    let end : take 8 tail ≡ tail = ap (λ n. take n tail) (sym l8) ∙ take-all tail in
    let number : to_be_bytes 8 (from_be_bytes (take 8 tail)) ≡ tail =
      ap (λ xs. to_be_bytes 8 (from_be_bytes xs)) end
      ∙ to_be_bytes-from_be_bytes 8 tail l8 (All-drop _ 32 (drop 4 rest) all40) in
    ap (λ xs. flush_tx_magic ++ xs)
      (take-drop 4 rest
        ∙ ap₂ (λ xs ys. xs ++ ys) (sym id)
            (take-drop 32 (drop 4 rest) ∙ ap₂ (λ xs ys. xs ++ ys) (sym hash) (sym number)))

take_field : (n x : ℕ) (ys : List ℕ) → take n (to_be_bytes n x ++ ys) ≡ to_be_bytes n x
take_field n x ys =
    ap (λ k. take k (to_be_bytes n x ++ ys)) (sym (length-to_be_bytes n x))
    ∙ take-length_append (to_be_bytes n x) ys

drop_field : (n x : ℕ) (ys : List ℕ) → drop n (to_be_bytes n x ++ ys) ≡ ys
drop_field n x ys =
    ap (λ k. drop k (to_be_bytes n x ++ ys)) (sym (length-to_be_bytes n x))
    ∙ drop-length_append (to_be_bytes n x) ys

frame-fields :
    (p : FlushTxPayload)
    → Fits p
    → fields (
        to_be_bytes 4 p.sub_chain_id
        ++ (to_be_bytes 32 p.sub_block_hash ++ to_be_bytes 8 p.sub_block_number))
      ≡ p
frame-fields p fits =
    let number = to_be_bytes 8 p.sub_block_number in
    let tail = to_be_bytes 32 p.sub_block_hash ++ number in
    let rest = to_be_bytes 4 p.sub_chain_id ++ tail in
    let after : drop 4 rest ≡ tail = drop_field 4 p.sub_chain_id tail in
    let id : from_be_bytes (take 4 rest) ≡ p.sub_chain_id =
      ap from_be_bytes (take_field 4 p.sub_chain_id tail)
      ∙ from_be_bytes-to_be_bytes 4 p.sub_chain_id fits.id in
    let hash : from_be_bytes (take 32 (drop 4 rest)) ≡ p.sub_block_hash =
      ap (λ xs. from_be_bytes (take 32 xs)) after
      ∙ ap from_be_bytes (take_field 32 p.sub_block_hash number)
      ∙ from_be_bytes-to_be_bytes 32 p.sub_block_hash fits.hash in
    let all : take 8 number ≡ number =
      ap (λ k. take k number) (sym (length-to_be_bytes 8 p.sub_block_number)) ∙ take-all number in
    let last : from_be_bytes (take 8 (drop 32 (drop 4 rest))) ≡ p.sub_block_number =
      ap (λ xs. from_be_bytes (take 8 (drop 32 xs))) after
      ∙ ap (λ xs. from_be_bytes (take 8 xs)) (drop_field 32 p.sub_block_hash number)
      ∙ ap from_be_bytes all
      ∙ from_be_bytes-to_be_bytes 8 p.sub_block_number fits.number in
    ap
      (λ k. record {
        sub_chain_id = k;
        sub_block_hash = from_be_bytes (take 32 (drop 4 rest));
        sub_block_number = from_be_bytes (take 8 (drop 32 (drop 4 rest)));
      })
      id
    ∙ ap
        (λ k. record {
          sub_chain_id = p.sub_chain_id;
          sub_block_hash = k;
          sub_block_number = from_be_bytes (take 8 (drop 32 (drop 4 rest)));
        })
        hash
    ∙ ap
        (λ k. record {
          sub_chain_id = p.sub_chain_id;
          sub_block_hash = p.sub_block_hash;
          sub_block_number = k;
        })
        last

-- `parse_flush_anchor` past its test.
parse-fields :
    (bytes : List ℕ)
    → ((length bytes == 53) && starts_with bytes flush_tx_magic) ≡ true
    → parse_flush_anchor bytes ≡ some (fields (drop 9 bytes))
unfolding parse_flush_anchor
parse-fields bytes passes =
    let far : drop 36 (drop 9 bytes) ≡ drop 32 (drop 4 (drop 9 bytes)) =
      drop-drop 4 32 (drop 9 bytes) in
    ground (arith, passes, far)

parse-fails :
    (bytes : List ℕ) (p : FlushTxPayload)
    → ((length bytes == 53) && starts_with bytes flush_tx_magic) ≡ false
    → parse_flush_anchor bytes ≢ some p
unfolding parse_flush_anchor
parse-fails bytes p fails h = ground (arith, fails, h)

frame-passes :
    (p : FlushTxPayload)
    → ((length (flush_frame p) == 53) && starts_with (flush_frame p) flush_tx_magic) ≡ true
unfolding starts_with
frame-passes p =
    let number = to_be_bytes 8 p.sub_block_number in
    let tail = to_be_bytes 32 p.sub_block_hash ++ number in
    let a = length-append (to_be_bytes 4 p.sub_chain_id) tail in
    let b = length-append (to_be_bytes 32 p.sub_block_hash) number in
    let c = length-to_be_bytes 4 p.sub_chain_id in
    let d = length-to_be_bytes 32 p.sub_block_hash in
    let e = length-to_be_bytes 8 p.sub_block_number in ground (arith, a, b, c, d, e)

-- On bytes, and a payload whose fields fit in their widths, `parse_flush_anchor` returns the payload just
-- if the bytes are the magic, the id in 4 bytes, the hash in 32 and the number in 8, big-endian.
parse_flush_anchor_iff :
    (bytes : List ℕ) (p : FlushTxPayload)
    → All (λ b. b < 256) bytes
    → Fits p
    → (parse_flush_anchor bytes ≡ some p) ↔ (bytes ≡ flush_frame p)
parse_flush_anchor_iff bytes p all fits = (
  λ h. elim (Bool-cases ((length bytes == 53) && starts_with bytes flush_tx_magic)) [
    | inl passes ↦
        let starts : starts_with bytes flush_tx_magic ≡ true = ground (arith, passes) in
        let split = starts_with-append bytes flush_tx_magic starts in
        let read : some (fields (drop 9 bytes)) ≡ some p = sym (parse-fields bytes passes) ∙ h in
        let same : fields (drop 9 bytes) ≡ p = cc in
        let whole : length bytes ≡ 9 + 44 = ground (arith, passes) in
        let (_, count) = split_lengths 9 44 bytes whole in
        split ∙ fields-frame (drop 9 bytes) count (All-drop _ 9 bytes all) ∙ ap flush_frame same
    | inr fails ↦ absurd (parse-fails bytes p fails h)
  ],
  λ e.
      subst (λ b. parse_flush_anchor b ≡ some p) (sym e)
        (parse-fields (flush_frame p) (frame-passes p) ∙ ap some (frame-fields p fits)),
)
