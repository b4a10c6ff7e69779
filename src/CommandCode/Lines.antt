-- ===== src/CommandCode/Lines.antt =====
-- commandcode/protocol.go and plugin.go: the lines of an upstream stream (commandCodeReadLines) and the
-- reader that takes its bytes from the host (hostStreamReader). What bufio.Reader.ReadSlice gives is
-- the argument: a slice up to a line feed, a full buffer, or the rest at the stream's end.
pub mod Framing
pub mod Reading
use cpa_plugins.Base.{
  ℕ, Bool, true, false, ◌&&◌, List, [], ◌∷◌, ◌++◌, Option, none, some, String, length, take, drop,
  ltb, ◌==◌, if◌then◌else◌,
}

abbrev pub Bytes : Type 0
Bytes = List ℕ

-- The slices of one stream, to its end or to a read that fails.
pub data Slices : Type 0 where
  line_slice : Bytes → Slices → Slices
  full_slice : Bytes → Slices → Slices
  last_slice : Bytes → Slices
  broken_slice : Bytes → String → Slices

pub data LineError : Type 0 where
  line_too_long : LineError
  read_failed : String → LineError

abbrev pub max_line_bytes : ℕ
max_line_bytes = 16777216

-- bytes.TrimSuffix, for a suffix of one byte.
unfoldable pub trim_suffix : ℕ → Bytes → Bytes
trim_suffix c [] = []
trim_suffix c (x ∷ []) = if x == c then [] else x ∷ []
trim_suffix c (x ∷ y ∷ ys) = x ∷ trim_suffix c (y ∷ ys)

abbrev pub line_of : Bytes → Bytes
line_of pending = trim_suffix 13 (trim_suffix 10 pending)

-- The line that is handled, if anything is pending.
abbrev pub flush : Bytes → List Bytes
flush [] = []
flush (b ∷ bs) = line_of (b ∷ bs) ∷ []

-- The lines handled, and the error returned. `pending` is the buffer.
unfoldable pub read_lines : Bytes → Slices → List Bytes × Option LineError
read_lines pending (full_slice f rest) =
    let more = read_lines (pending ++ f) rest in
    if ltb max_line_bytes (length (pending ++ f)) then ([], some line_too_long) else more
read_lines pending (line_slice f rest) =
    let (lines, e) = read_lines [] rest in
    if ltb max_line_bytes (length (pending ++ f))
    then ([], some line_too_long)
    else (flush (pending ++ f) ++ lines, e)
read_lines pending (last_slice f) =
    if ltb max_line_bytes (length (pending ++ f))
    then ([], some line_too_long)
    else (flush (pending ++ f), none)
read_lines pending (broken_slice f e) =
    if ltb max_line_bytes (length (pending ++ f))
    then ([], some line_too_long)
    else (flush (pending ++ f), some (read_failed e))

-- The host's answer to host.http.stream_read.
pub data HostRead : Type 0 where
  read_error : String → HostRead
  read_bytes : Bytes → Bool → HostRead

pub record Reader : Type 0 where
  pub pending : Bytes
  pub done : Bool

-- The results of `Read`: bytes, the end, or an error.
pub data ReadResult : Type 0 where
  got : Bytes → ReadResult
  end_of_file : ReadResult
  failed : String → ReadResult

-- Where the loop that asks the host stops, with the host's further answers: without an answer, at an
-- error, or with bytes pending or the end reached.
pub data Filled : Type 0 where
  silent : Filled
  erred : String → List HostRead → Filled
  filled : Bytes → Bool → List HostRead → Filled

-- The loop, which asks while nothing is pending and the end is not reached.
unfoldable pub fill : Bytes → Bool → List HostRead → Filled
fill (b ∷ bs) done answers = filled (b ∷ bs) done answers
fill [] true answers = filled [] true answers
fill [] false [] = silent
fill [] false (read_error e ∷ answers) = erred e answers
fill [] false (read_bytes payload done ∷ answers) = fill payload done answers

-- `copy(dst, r.pending)` for a `dst` of `size` bytes; `none` is a host that does not answer.
unfoldable pub read_filled : ℕ → Filled → Option (ReadResult × Reader × List HostRead)
read_filled size silent = none
read_filled size (erred e answers) = some (failed e, record { pending = []; done = false }, answers)
read_filled size (filled [] true answers) =
    some (end_of_file, record { pending = []; done = true }, answers)
read_filled size (filled pending done answers) =
    some (got (take size pending), record { pending = drop size pending; done = done }, answers)

unfoldable pub read : ℕ → Reader → List HostRead → Option (ReadResult × Reader × List HostRead)
unfolding fill read_filled
read size r answers = read_filled size (fill r.pending r.done answers)
