-- ===== src/Filesystem/Stdio.antt =====
-- What Project 4/filesystem uses of the C library: regular files by their paths, and a stream over the
-- content of one. The state is that of `struct bb_state` (params.h), less the log, and the disk.
use ece318_operating_systems.Prelude.{
  ℕ, ◌+◌, ◌-◌, Bool, true, false, Option, none, some, List, [], ◌∷◌, ◌++◌, ◌==◌, leb, if◌then◌else◌,
  length,
}
use ece318_operating_systems.Filesystem.Bytes.{Bytes, bytes_eq, take, drop, replicate}

abbrev pub FilePath : Type 0
FilePath = Bytes

-- The regular files that there are.
abbrev pub Disk : Type 0
Disk = FilePath → Option Bytes

abbrev pub put : Disk → FilePath → Option Bytes → Disk
put d p c q = if bytes_eq q p then c else d q

pub record BbState : Type 0 where
  pub rootdir : FilePath
  pub hashesfile : FilePath
  pub last_id : ℕ
  pub hiddendir : FilePath

pub record World : Type 0 where
  pub bbs : BbState
  pub disk : Disk

-- What the program does not decide: whether `fopen` may open a path (in any mode), the SHA-1 of a text
-- (OpenSSL), what an automatic `struct stat` holds before it is filled in, how many bytes a `malloc` of
-- `n` really gives, how many bytes a stream reads at once, and which entries a directory has (whether
-- each is a regular file).
pub record Env : Type 0 where
  pub opens : FilePath → Bool
  pub sha1 : Bytes → Bytes
  pub unset_size : ℕ
  pub usable : ℕ → ℕ
  pub buffer_size : ℕ
  pub listing : FilePath → Option (List Bool)

-- `fault` is undefined behaviour: a write past a buffer, a use of NULL, bytes that were never read.
pub data Run (A : Type 0) : Type 0 where
  ok : A → World → Run A
  fault : Run A

abbrev pub Cmd : Type 0 → Type 0
Cmd A = World → Run A

abbrev pub pure : {A : Type 0} → A → Cmd A
pure a w = ok a w

-- A run ends without a fault, and the result and the state have the property.
abbrev pub Returns : {A : Type 0} → (A → World → Type 0) → Run A → Type 0
Returns P (ok a w) = P a w
Returns P fault = ⊥

pub Returns-map :
    {A : Type 0} (P Q : A → World → Type 0) (m : Run A)
    → ((a : A) (w : World) → P a w → Q a w)
    → Returns P m
    → Returns Q m
Returns-map P Q (ok a w) f p = f a w p
Returns-map P Q fault f p = p

module _ {A B : Type 0} where
  abbrev pub and_then : Run A → (A → Cmd B) → Run B
  and_then (ok a w) k = k a w
  and_then fault k = fault

  pub Returns-and_then :
      (P : A → World → Type 0) (Q : B → World → Type 0) (m : Run A) (k : A → Cmd B)
      → Returns P m
      → ((a : A) (w : World) → P a w → Returns Q (k a w))
      → Returns Q (and_then m k)
  Returns-and_then P Q (ok a w) k p f = f a w p
  Returns-and_then P Q fault k p f = absurd p

  infixl 5 ◌>>=◌ ◌>>◌
  abbrev pub ◌>>=◌ : Cmd A → (A → Cmd B) → Cmd B
  m >>= k = λ w. and_then (m w) k

  abbrev pub ◌>>◌ : Cmd A → Cmd B → Cmd B
  m >> n = m >>= λ _. n

abbrev pub get_world : Cmd World
get_world w = ok w w

abbrev pub when_else : {A : Type 0} → Bool → Cmd A → Cmd A → Cmd A
when_else true m n = m
when_else false m n = n

abbrev pub get_bbs : Cmd BbState
get_bbs w = ok w.bbs w

abbrev pub content_of : Disk → FilePath → Bytes
content_of d p = elim (d p) [ none ↦ [] | some c ↦ c ]

abbrev pub is_some : Option Bytes → Bool
is_some none = false
is_some (some c) = true

-- The content of a file that can be opened for reading (modes r, rb and rb+).
unfoldable pub open_content : Env → Disk → FilePath → Option Bytes
open_content env d p = if env.opens p then d p else none

-- `p` gets this content, or (`none`) is removed.
unfoldable pub set_file : FilePath → Option Bytes → Cmd (Unit {0})
set_file p c w = ok tt (record w { disk = put w.disk p c })

-- A stream over a file's content.
pub record Stream : Type 0 where
  pub content : Bytes
  pub pos : ℕ

abbrev pub stream : Bytes → ℕ → Stream
stream c p = record { content = c; pos = p }

-- `fread` of at most `n` bytes.
unfoldable pub fread : ℕ → Stream → Bytes × Stream
fread n s = let got = take n (drop s.pos s.content) in (got, record s { pos = s.pos + length got })

-- `fseek` by `n` bytes back from the current place: it fails, and moves nothing, before the start.
unfoldable pub seek_back : ℕ → Stream → Stream
seek_back n s = if leb n s.pos then record s { pos = s.pos - n } else s

-- Bytes written at a place; a gap behind the end is filled with zeros.
unfoldable pub write_at : Bytes → ℕ → Bytes → Bytes
write_at c p bs = take p c ++ (replicate (p - length c) 0 ++ (bs ++ drop (p + length bs) c))

unfoldable pub fwrite : Bytes → Stream → Stream
fwrite bs s = stream (write_at s.content s.pos bs) (s.pos + length bs)

-- The text of a C string: the bytes before the first NUL.
unfoldable pub c_string : Bytes → Bytes
c_string [] = []
c_string (c ∷ cs) = if c == 0 then [] else c ∷ c_string cs
