-- ===== src/Probes/Banner.antt =====
-- src/probes/banner_io.cpp, `read_until_quiet`: the loop that collects a banner. What the socket
-- does until the timer ends is a parameter, one report for each `async_read_some`.
pub mod Capped
use service_port_scanner.Common.{
  ℕ, ◌-◌, min, Bool, true, false, not, Bytes, [], ◌∷◌, ◌++◌, length, take, is_empty, ltb, leb, ◌==◌,
  if◌then◌else◌,
}

-- The reports: the timer ends first, an error, or bytes and what comes after them.
pub data Reads : Type 0 where
  timed_out : Reads
  failed : Reads
  received : Bytes → Reads → Reads

-- `cap - banner.size()`, and 0 where the banner is full.
abbrev pub room : ℕ → Bytes → ℕ
room cap banner = if ltb (length banner) cap then cap - length banner else 0

-- What `read_op` does from a banner: its result and the banner. Where the timer ends first, the
-- result is the one of `which.index() == 1`.
unfoldable pub read_op : ℕ → Bytes → Reads → Bool × Bytes
read_op cap banner Reads.timed_out = (not (is_empty banner), banner)
read_op cap banner Reads.failed = (not (is_empty banner), banner)
read_op cap banner (Reads.received buf next) =
    let n = length buf in
    let appended = banner ++ take (min n (room cap banner)) buf in
    let rest = read_op cap appended next in
    if n == 0
    then (not (is_empty banner), banner)
    else if room cap banner == 0
    then (true, banner)
    else if leb cap (length appended)
    then (true, appended)
    else rest

-- The banner is empty at the call in `JsonProbe::identify`.
unfoldable pub read_until_quiet : ℕ → Reads → Bool × Bytes
unfolding read_op
read_until_quiet cap reads = read_op cap [] reads
