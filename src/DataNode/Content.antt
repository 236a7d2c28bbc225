-- ===== src/DataNode/Content.antt =====
-- The content of a file under the reads, writes and truncations of package os that
-- internal/datanode/datanode.go calls. A gap reads as zeros.
use file_storage.Base.{
  ℕ, ◌+◌, ◌-◌, ◌<◌, ◌≡◌, Option, none, some, List, [], ◌∷◌, ◌++◌, arith, length, length-append,
  get_elem?, take, drop, replicate, length-take, length-drop, length-replicate, get_elem?-append,
  get_elem?-take, get_elem?-drop, get_elem?-replicate, get_elem?-past, list_ext, ltb, if◌then◌else◌,
}
use Prim.Native.Nat.{min, max}

-- os.Truncate: the tail is dropped, or zeros are added.
unfoldable pub resize : List ℕ → ℕ → List ℕ
resize old size = take size old ++ replicate (size - length old) 0

-- (*os.File).WriteAt. A write of no bytes does not extend the file.
unfoldable pub write_at : List ℕ → ℕ → List ℕ → List ℕ
unfolding resize
write_at old offset [] = old
write_at old offset (b ∷ bytes) =
    resize old offset ++ ((b ∷ bytes) ++ drop (offset + length (b ∷ bytes)) old)

-- (*os.File).ReadAt into a buffer of `count` bytes: what was read.
unfoldable pub read_at : List ℕ → ℕ → ℕ → List ℕ
read_at old offset count = take count (drop offset old)

-- The byte of a file of bytes and zeros: what stands there, or zero below the size.
abbrev pub byte_below : ℕ → List ℕ → ℕ → Option ℕ
byte_below size old i =
    if ltb i size then if ltb i (length old) then get_elem? old i else some 0 else none

pub length-resize : (old : List ℕ) (size : ℕ) → length (resize old size) ≡ size
unfolding resize
length-resize old size = omega (
  arith,
  length-append (take size old) (replicate (size - length old) 0),
  length-take size old,
  length-replicate {A = ℕ} (size - length old) 0,
)

pub get_elem?-resize :
    (old : List ℕ) (size i : ℕ) → get_elem? (resize old size) i ≡ byte_below size old i
unfolding resize
get_elem?-resize old size i = ground (
  arith,
  get_elem?-append (take size old) (replicate (size - length old) 0) i,
  length-take size old,
  get_elem?-take size old i,
  get_elem?-replicate {A = ℕ} (size - length old) 0 (i - length (take size old)),
)

-- What stands at each place after a write.
abbrev pub byte_after : List ℕ → ℕ → List ℕ → ℕ → Option ℕ
byte_after old offset bytes i =
    if ltb i offset
    then byte_below offset old i
    else if ltb i (offset + length bytes)
    then get_elem? bytes (i - offset)
    else get_elem? old i

pub get_elem?-write_at :
    (old : List ℕ) (offset b : ℕ) (bytes : List ℕ) (i : ℕ)
    → get_elem? (write_at old offset (b ∷ bytes)) i ≡ byte_after old offset (b ∷ bytes) i
unfolding write_at
get_elem?-write_at old offset b bytes i = ground (
  arith,
  get_elem?-append (resize old offset) ((b ∷ bytes) ++ drop (offset + length (b ∷ bytes)) old) i,
  length-resize old offset,
  get_elem?-resize old offset i,
  get_elem?-append (b ∷ bytes) (drop (offset + length (b ∷ bytes)) old) (i - offset),
  get_elem?-drop (offset + length (b ∷ bytes)) old (i - offset - length (b ∷ bytes)),
)

pub length-write_at :
    (old : List ℕ) (offset b : ℕ) (bytes : List ℕ)
    → length (write_at old offset (b ∷ bytes)) ≡ max (length old) (offset + length (b ∷ bytes))
unfolding write_at
length-write_at old offset b bytes = omega (
  arith,
  length-append (resize old offset) ((b ∷ bytes) ++ drop (offset + length (b ∷ bytes)) old),
  length-resize old offset,
  length-append (b ∷ bytes) (drop (offset + length (b ∷ bytes)) old),
  length-drop (offset + length (b ∷ bytes)) old,
)

pub get_elem?-read_at :
    (old : List ℕ) (offset count i : ℕ)
    → get_elem? (read_at old offset count) i
      ≡ (if ltb i count then get_elem? old (offset + i) else none)
unfolding read_at
get_elem?-read_at old offset count i =
    ground (arith, get_elem?-take count (drop offset old) i, get_elem?-drop offset old i)

pub length-read_at :
    (old : List ℕ) (offset count : ℕ)
    → length (read_at old offset count) ≡ min count (length old - offset)
unfolding read_at
length-read_at old offset count =
    omega (arith, length-take count (drop offset old), length-drop offset old)

-- A read of what a write covers gives what was written.
pub read_at-write_at :
    (old : List ℕ) (offset : ℕ) (bytes : List ℕ)
    → 0 < length bytes
    → read_at (write_at old offset bytes) offset (length bytes) ≡ bytes
read_at-write_at old offset [] h = absurd (omega arith)
read_at-write_at old offset (b ∷ bytes) h =
    list_ext (read_at (write_at old offset (b ∷ bytes)) offset (length (b ∷ bytes))) (b ∷ bytes)
      (λ i. ground (
        arith,
        get_elem?-read_at (write_at old offset (b ∷ bytes)) offset (length (b ∷ bytes)) i,
        get_elem?-write_at old offset b bytes (offset + i),
        get_elem?-past (b ∷ bytes) i,
      ))
