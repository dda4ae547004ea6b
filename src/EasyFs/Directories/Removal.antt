-- ===== src/EasyFs/Directories/Removal.antt =====
-- Removing an entry of a directory puts the last entry in its place.
use rcore_os.Prelude.{
  ℕ, zero, suc, ◌+◌, ◌-◌, ◌*◌, ◌/◌, ◌≤◌, ◌<◌, ◌≡◌, ◌≢◌, refl, ap, ap₂, sym, ◌∙◌, min, List, [], ◌∷◌,
  ◌++◌, append-nil, Outcome, returns, length, set, drop_all, All, arith, length-append, length-set,
  subst, Bool, dec_lt,
}
use rcore_os.EasyFs.Disk.{Disk}
use rcore_os.EasyFs.Layout.{DiskInode, sub_u32}
use rcore_os.EasyFs.Layout.Io.{read_at, write_at}
use rcore_os.EasyFs.Layout.Io.Blocks.{block_of, file_byte, file_bytes, Separate}
use rcore_os.EasyFs.Layout.Io.Reading.{read_at-file_bytes, length-file_bytes}
use rcore_os.EasyFs.Layout.Io.Storing.{Stored, stored_before, stored_after}
use rcore_os.EasyFs.Layout.Io.Writing.{write_at-Writes}
use rcore_os.EasyFs.Layout.Io.RoundTrip.{IsByte, file_bytes-Stored}
use rcore_os.EasyFs.Layout.Entries.{as_bytes, new_empty}
use rcore_os.EasyFs.Directories.{remove_entry}
use rcore_os.EasyFs.Directories.Lookup.{Named, HoldsFrom, Holds}

file_bytes_ext :
    (inode : DiskInode) (d d' : Disk) (p n : ℕ)
    → ((q : ℕ) → p ≤ q → q < p + n → file_byte inode d q ≡ file_byte inode d' q)
    → file_bytes inode d p n ≡ file_bytes inode d' p n
file_bytes_ext inode d d' p zero h = refl
file_bytes_ext inode d d' p (suc n) h =
    ap₂ (λ x xs. x ∷ xs) (h p (omega arith) (omega arith))
      (file_bytes_ext inode d d' (p + 1) n (λ q a b. h q (omega arith) (omega arith)))

file_bytes-All : (inode : DiskInode) (d : Disk) (p n : ℕ) → All IsByte (file_bytes inode d p n)
file_bytes-All inode d p zero = tt
file_bytes-All inode d p (suc n) = (omega arith, file_bytes-All inode d (p + 1) n)

-- The entry `i` of `d'` has the bytes of the entry `last` of `d`, and the others are the same.
record Replaced (inode : DiskInode) (d d' : Disk) (i last count : ℕ) : Type 0 where
  here : file_bytes inode d' (i * 32) 32 ≡ file_bytes inode d (last * 32) 32
  elsewhere :
      (k : ℕ) → k < count → k ≢ i → file_bytes inode d' (k * 32) 32 ≡ file_bytes inode d (k * 32) 32

Stored-Replaced :
    (inode : DiskInode) (n : ℕ) (d d' : Disk) (i last count : ℕ)
    → Stored inode n d d' (i * 32) (i * 32 + 32) (file_bytes inode d (last * 32) 32)
    → i < count
    → count * 32 ≤ n * 512
    → Replaced inode d d' i last count
Stored-Replaced inode n d d' i last count w h room =
    let src = file_bytes inode d (last * 32) 32 in
    let long = length-file_bytes inode d (last * 32) 32 in
    record {
      here =
          ap (file_bytes inode d' (i * 32)) (sym long)
          ∙ file_bytes-Stored inode n d d' (i * 32) (i * 32 + 32) src w (omega arith) (omega arith)
              (file_bytes-All inode d (last * 32) 32);
      elsewhere = λ k lt ne. file_bytes_ext inode d' d (k * 32) 32 (λ q a b.
          w.bytes q (omega arith) ∙ elim (dec_lt k i) [
            | yes before ↦
                stored_before (i * 32) (i * 32 + 32) src q (file_byte inode d q) (omega arith)
            | no after ↦
                let past : i < k = omega arith in
                stored_after (i * 32) (i * 32 + 32) src q (file_byte inode d q) (omega arith)
                  (omega arith)
          ]);
    }

module _ (is_utf8 : List ℕ → Bool) (inode : DiskInode) (d d' : Disk) (i last count : ℕ)
    (w : Replaced inode d d' i last count) where
  HoldsFrom-after :
      (k : ℕ) (es : Named)
      → i < k
      → k + length es ≤ count
      → HoldsFrom is_utf8 inode d k es
      → HoldsFrom is_utf8 inode d' k es
  HoldsFrom-after k [] past inside h = tt
  HoldsFrom-after k (e ∷ es) past inside h =
      let (bytes, name, bound) = h.0 in
      (
        (w.elsewhere k (omega arith) (λ same. omega arith) ∙ bytes, name, bound),
        HoldsFrom-after (k + 1) es (omega arith) (omega arith) h.1,
      )

  HoldsFrom-set :
      (k j : ℕ) (es : Named) (z : List ℕ × ℕ)
      → k + j ≡ i
      → k + length es ≤ count
      → HoldsFrom is_utf8 inode d k es
      → HoldsFrom is_utf8 inode d last (z ∷ [])
      → HoldsFrom is_utf8 inode d' k (set es j z)
  HoldsFrom-set k j [] z at inside h tail = tt
  HoldsFrom-set k zero (e ∷ es) z at inside h tail =
      let (bytes, name, bound) = tail.0 in
      let same : k ≡ i = omega arith in
      (
        (ap (λ x. file_bytes inode d' (x * 32) 32) same ∙ w.here ∙ bytes, name, bound),
        HoldsFrom-after (k + 1) es (omega arith) (omega arith) h.1,
      )
  HoldsFrom-set k (suc j) (e ∷ es) z at inside h tail =
      let (bytes, name, bound) = h.0 in
      (
        (w.elsewhere k (omega arith) (λ same. omega arith) ∙ bytes, name, bound),
        HoldsFrom-set (k + 1) j es z (omega arith) (omega arith) h.1 tail,
      )

HoldsFrom-split :
    (is_utf8 : List ℕ → Bool) (inode : DiskInode) (d : Disk) (k : ℕ) (es : Named) (z : List ℕ × ℕ)
    → HoldsFrom is_utf8 inode d k (es ++ (z ∷ []))
    → HoldsFrom is_utf8 inode d k es × HoldsFrom is_utf8 inode d (k + length es) (z ∷ [])
HoldsFrom-split is_utf8 inode d k [] z h =
    (tt, subst (λ x. HoldsFrom is_utf8 inode d x (z ∷ [])) {x = k} {y = k + 0} (omega arith) h)
HoldsFrom-split is_utf8 inode d k (e ∷ es) z h =
    let (front, tail) = HoldsFrom-split is_utf8 inode d (k + 1) es z h.1 in
    (
      (h.0, front),
      subst (λ x. HoldsFrom is_utf8 inode d x (z ∷ [])) {x = k + 1 + length es}
          {y = k + suc (length es)} (omega arith) tail,
    )

-- What removing an entry from a directory that holds `es` and then `z` has to deliver.
abbrev pub Removes :
    (List ℕ → Bool)
    → DiskInode
    → ℕ
    → Disk
    → Named
    → List ℕ × ℕ
    → ℕ
    → Outcome (DiskInode × Disk)
    → Type 0
Removes is_utf8 inode n d es z i o =
    (size : ℕ) × (d' : Disk) × (o ≡ returns (record inode { size = size }, d'))
    × Holds is_utf8 (record inode { size = size }) d' (set es i z)
    × Separate inode d' n
    × ((b : ℕ) → ((k : ℕ) → k < n → block_of inode d k ≢ b) → d' b ≡ d b)

length-new_empty : length (as_bytes new_empty) ≡ 32
unfolding as_bytes new_empty
length-new_empty = refl

abbrev shorter : DiskInode → DiskInode
shorter inode = record inode { size = sub_u32 inode.size 32 }

remove_entry_write :
    (inode : DiskInode) (d d' : Disk) (i m : ℕ) (src : List ℕ)
    → inode.size ≡ suc m * 32
    → read_at inode d (m * 32) 32 ≡ returns src
    → length src ≡ 32
    → write_at inode d (i * 32) src ≡ returns (32, d')
    → remove_entry inode d i ≡ returns (shorter inode, d')
unfolding remove_entry
remove_entry_write inode d d' i m src size got long wrote =
    let last : (inode.size / 32 - 1) * 32 ≡ m * 32 = omega arith in
    rw
      (
        last,
        got,
        drop_all (as_bytes new_empty) (length src) (omega (arith, length-new_empty)),
        append-nil src,
        wrote,
      )
      refl

-- Writing 32 bytes over the entry `i`.
overwrite :
    (inode : DiskInode) (n : ℕ) (d : Disk) (i : ℕ) (src : List ℕ)
    → Separate inode d n
    → inode.size ≤ n * 512
    → (i + 1) * 32 ≤ inode.size
    → length src ≡ 32
    → (d' : Disk) × (write_at inode d (i * 32) src ≡ returns (32, d'))
      × Stored inode n d d' (i * 32) (i * 32 + 32) src
overwrite inode n d i src v room inside long =
    let bound = v.count in
    let (d', e, w) =
      write_at-Writes inode n d (i * 32) src v room (omega arith) (omega arith)
        (λ nil. let none = ap length nil in omega arith) in
    let end : min (i * 32 + length src) inode.size ≡ i * 32 + 32 = omega arith in
    let size : min (i * 32 + length src) inode.size - i * 32 ≡ 32 = omega arith in
    (d', e ∙ ap (λ k. returns (k, d')) size, subst (λ q. Stored inode n d d' (i * 32) q src) end w)

-- Removing the entry `i` of a directory with separate blocks does not panic: the directory then holds
-- the entries but the last, which has taken the place of the entry `i` if that was another one.
pub remove_entry-Removes :
    (is_utf8 : List ℕ → Bool) (inode : DiskInode) (n : ℕ) (d : Disk) (es : Named) (z : List ℕ × ℕ)
    (i : ℕ)
    → Holds is_utf8 inode d (es ++ (z ∷ []))
    → Separate inode d n
    → inode.size ≤ n * 512
    → i ≤ length es
    → Removes is_utf8 inode n d es z i (remove_entry inode d i)
remove_entry-Removes is_utf8 inode n d es z i h v room inside =
    let m = length es in
    let small = h.reachable in
    let size : inode.size ≡ suc m * 32 = h.size ∙ omega (arith, length-append es (z ∷ [])) in
    let src = file_bytes inode d (m * 32) 32 in
    let long = length-file_bytes inode d (m * 32) 32 in
    let all : min (m * 32 + 32) inode.size - m * 32 ≡ 32 = omega arith in
    let got =
      read_at-file_bytes inode d (m * 32) 32 (omega arith) small
      ∙ ap (λ k. returns (file_bytes inode d (m * 32) k)) all in
    let (d', e, w) = overwrite inode n d i src v room (omega arith) long in
    let r = Stored-Replaced inode n d d' i m (suc m) w (omega arith) (omega arith) in
    let (front, rest) = HoldsFrom-split is_utf8 inode d 0 es z h.entries in
    let tail =
      subst (λ k. HoldsFrom is_utf8 inode d k (z ∷ [])) {x = 0 + m} {y = m} (omega arith) rest in
    (
      sub_u32 inode.size 32,
      d',
      remove_entry_write inode d d' i m src size got long e,
      record {
        is_directory = h.is_directory;
        size = omega (arith, length-set es i z);
        reachable = omega arith;
        entries =
            HoldsFrom-set is_utf8 inode d d' i m (suc m) r 0 i es z (omega arith) (omega arith)
              front tail;
      },
      w.separate,
      w.others,
    )
