-- ===== src/EasyFs/Layout/Io/Storing.antt =====
-- Bytes stored in a file, block by block, as an operation on the positions of the file.
use rcore_os.Prelude.{
  ℕ, zero, suc, ◌+◌, ◌-◌, ◌*◌, ◌/◌, ◌%◌, ◌≤◌, ◌<◌, ◌≡◌, ◌≢◌, refl, ap, sym, ◌∙◌, List, [], ◌∷◌,
  arith, leb, ltb, ◌&&◌, dec_lt, length, if◌then◌else◌, le→leb, lt→leb_false, lt→ltb, ge→ltb_false,
  ==_self, take, drop, get_or, ℕ_discrete,
}
use rcore_os.EasyFs.Disk.{Block, Disk, byte, update}
use rcore_os.EasyFs.Layout.{DiskInode}
use rcore_os.EasyFs.Layout.Io.{splice}
use rcore_os.EasyFs.Layout.Io.Blocks.{
  block_of, file_byte, Separate, Separate-update, block_of-update, apart,
}

get_or-take : (n : ℕ) (xs : List ℕ) (k : ℕ) → k < n → get_or (take n xs) k 0 ≡ get_or xs k 0
get_or-take zero xs k h = absurd (omega arith)
get_or-take (suc n) [] k h = refl
get_or-take (suc n) (x ∷ xs) zero h = refl
get_or-take (suc n) (x ∷ xs) (suc k) h = get_or-take n xs k (omega arith)

get_or-drop : (n : ℕ) (xs : List ℕ) (k : ℕ) → get_or (drop n xs) k 0 ≡ get_or xs (n + k) 0
get_or-drop zero xs k = ap (λ i. get_or xs i 0) (omega arith)
get_or-drop (suc n) [] k = refl
get_or-drop (suc n) (x ∷ xs) k =
    get_or-drop n xs k
    ∙ ap (λ i. get_or (x ∷ xs) i 0) {x = suc (n + k)} {y = suc n + k} (omega arith)

length-take : (n : ℕ) (xs : List ℕ) → n ≤ length xs → length (take n xs) ≡ n
length-take zero xs h = refl
length-take (suc n) [] h = absurd (omega arith)
length-take (suc n) (x ∷ xs) h = ap suc (length-take n xs (omega arith))

pub length-drop : (n : ℕ) (xs : List ℕ) → length (drop n xs) ≡ length xs - n
length-drop zero xs = omega arith
length-drop (suc n) [] = omega arith
length-drop (suc n) (x ∷ xs) = length-drop n xs ∙ omega arith

-- The byte at the position `p` after `src` is stored at `start`, up to `end`.
abbrev pub stored : ℕ → ℕ → List ℕ → ℕ → ℕ → ℕ
stored start end src p old =
    if leb start p && ltb p end then get_or src (p - start) 0 % 256 else old

-- The disk `d'` is `d` with `src` stored in the file from `start` to `end`, for a file of `n` data
-- blocks: the index finds the same blocks, the bytes in the range are those of `src`, the others
-- keep their value, and so do all blocks that are not data blocks of the file.
pub record Stored (inode : DiskInode) (n : ℕ) (d d' : Disk) (start end : ℕ) (src : List ℕ)
    : Type 0 where
  pub separate : Separate inode d' n
  pub moved : (i : ℕ) → i < n → block_of inode d' i ≡ block_of inode d i
  pub bytes :
      (p : ℕ) → p < n * 512 → file_byte inode d' p ≡ stored start end src p (file_byte inode d p)
  pub others : (b : ℕ) → ((i : ℕ) → i < n → block_of inode d i ≢ b) → d' b ≡ d b

pub stored_within :
    (start end : ℕ) (src : List ℕ) (p old : ℕ)
    → start ≤ p
    → p < end
    → stored start end src p old ≡ get_or src (p - start) 0 % 256
stored_within start end src p old h l = rw (le→leb start p h, lt→ltb p end l) refl

pub stored_before :
    (start end : ℕ) (src : List ℕ) (p old : ℕ) → p < start → stored start end src p old ≡ old
stored_before start end src p old h = rw (lt→leb_false start p h) refl

pub stored_after :
    (start end : ℕ) (src : List ℕ) (p old : ℕ)
    → start ≤ p
    → end ≤ p
    → stored start end src p old ≡ old
stored_after start end src p old h l = rw (le→leb start p h, ge→ltb_false p end l) refl

-- Storing two parts one after the other.
pub stored_stored :
    (start next end : ℕ) (src : List ℕ) (p old : ℕ)
    → start ≤ next
    → next ≤ end
    → stored next end (drop (next - start) src) p (stored start next src p old)
      ≡ stored start end src p old
stored_stored start next end src p old h l =
    let rest = drop (next - start) src in
    let old' = stored start next src p old in
    elim (dec_lt p start) [
      | yes before ↦
          stored_before next end rest p old' (omega arith)
          ∙ stored_before start next src p old before
          ∙ sym (stored_before start end src p old before)
      | no from ↦ elim (dec_lt p next) [
        | yes first ↦
            stored_before next end rest p old' first
            ∙ stored_within start next src p old (omega arith) first
            ∙ sym (stored_within start end src p old (omega arith) (omega arith))
        | no other ↦ elim (dec_lt p end) [
          | yes second ↦
              stored_within next end rest p old' (omega arith) second
              ∙ ap (λ x. x % 256) (get_or-drop (next - start) src (p - next))
              ∙ ap (λ k. get_or src k 0 % 256) {x = next - start + (p - next)} {y = p - start}
                  (omega arith)
              ∙ sym (stored_within start end src p old (omega arith) second)
          | no after ↦
              stored_after next end rest p old' (omega arith) (omega arith)
              ∙ stored_after start next src p old (omega arith) (omega arith)
              ∙ sym (stored_after start end src p old (omega arith) (omega arith))
        ]
      ]
    ]

splice_within :
    (b : Block) (off : ℕ) (src : List ℕ) (k : ℕ)
    → off ≤ k
    → k < off + length src
    → splice b off src k ≡ get_or src (k - off) 0
splice_within b off src k h l = rw (le→leb off k h, lt→ltb k (off + length src) l) refl

splice_before : (b : Block) (off : ℕ) (src : List ℕ) (k : ℕ) → k < off → splice b off src k ≡ b k
splice_before b off src k h = rw (lt→leb_false off k h) refl

splice_after :
    (b : Block) (off : ℕ) (src : List ℕ) (k : ℕ)
    → off ≤ k
    → off + length src ≤ k
    → splice b off src k ≡ b k
splice_after b off src k h l = rw (le→leb off k h, ge→ltb_false k (off + length src) l) refl

byte-splice :
    (b : Block) (start next : ℕ) (src : List ℕ) (p : ℕ)
    → start ≤ next
    → next - start ≤ length src
    → p / 512 ≡ start / 512
    → start % 512 + (next - start) ≤ 512
    → byte (splice b (start % 512) (take (next - start) src)) (p % 512)
      ≡ stored start next src p (byte b (p % 512))
byte-splice b start next src p h enough same part =
    let old = byte b (p % 512) in
    let new = take (next - start) src in
    let long = length-take (next - start) src enough in
    elim (dec_lt p start) [
      | yes before ↦
          ap (λ x. x % 256) (splice_before b (start % 512) new (p % 512) (omega arith))
          ∙ sym (stored_before start next src p old before)
      | no from ↦ elim (dec_lt p next) [
        | yes within ↦
            ap (λ x. x % 256)
              (splice_within b (start % 512) new (p % 512) (omega arith) (omega arith)
                ∙ get_or-take (next - start) src (p % 512 - start % 512) (omega arith))
            ∙ ap (λ k. get_or src k 0 % 256) {x = p % 512 - start % 512} {y = p - start}
                (omega arith)
            ∙ sym (stored_within start next src p old (omega arith) within)
        | no past ↦
            ap (λ x. x % 256)
              (splice_after b (start % 512) new (p % 512) (omega arith) (omega arith))
            ∙ sym (stored_after start next src p old (omega arith) (omega arith))
      ]
    ]

update_self : (d : Disk) (c x : ℕ) (b : Block) → x ≡ c → update d c b x ≡ b
update_self d c x b e = rw (e, ==_self c) refl

stored_elsewhere :
    (start next : ℕ) (src : List ℕ) (p old : ℕ)
    → start ≤ next
    → start % 512 + (next - start) ≤ 512
    → p / 512 ≢ start / 512
    → stored start next src p old ≡ old
stored_elsewhere start next src p old le part other = elim (dec_lt p start) [
  | yes before ↦ stored_before start next src p old before
  | no from ↦ stored_after start next src p old (omega arith) (omega arith)
]

-- One round stores the part of `src` that falls into one block.
pub store_part :
    (inode : DiskInode) (n : ℕ) (d : Disk) (start next : ℕ) (src : List ℕ)
    → Separate inode d n
    → start ≤ next
    → start / 512 < n
    → next - start ≤ length src
    → start % 512 + (next - start) ≤ 512
    → Stored inode n d
        (update d
          (block_of inode d (start / 512))
          (splice (d (block_of inode d (start / 512))) (start % 512) (take (next - start) src)))
        start
        next
        src
store_part inode n d start next src v le h enough part =
    let c = block_of inode d (start / 512) in
    let b' = splice (d c) (start % 512) (take (next - start) src) in
    record {
      separate = Separate-update inode d n (start / 512) b' v h;
      moved = λ i hi. block_of-update inode d n (start / 512) i b' v h hi;
      bytes = λ p hp.
          let stays = block_of-update inode d n (start / 512) (p / 512) b' v h (omega arith) in
          elim (ℕ_discrete (p / 512) (start / 512)) [
            | yes same ↦
                ap (λ x. byte (update d c b' x) (p % 512)) stays
                ∙ ap (λ b. byte b (p % 512))
                    (update_self d c (block_of inode d (p / 512)) b' (ap (block_of inode d) same))
                ∙ byte-splice (d c) start next src p le enough same part
                ∙ ap (λ q. stored start next src p (byte (d (block_of inode d q)) (p % 512)))
                    (sym same)
            | no other ↦
                ap (λ x. byte (update d c b' x) (p % 512)) stays
                ∙ ap (λ b. byte b (p % 512))
                    (apart d c (block_of inode d (p / 512)) b'
                      (λ e. other (v.distinct (p / 512) (start / 512) (omega arith) h (sym e))))
                ∙ sym (stored_elsewhere start next src p (file_byte inode d p) le part other)
          ];
      others = λ b away. apart d c b b' (away (start / 512) h);
    }
