-- ===== src/Codec/Socket.antt =====
-- common/src/codec.cpp: read_exact, write_exact, read_frame and write_frame, over what the kernel
-- answers to each call of read(2) or write(2).
pub mod Stream
pub mod Delivery
pub mod Reader
pub mod Messages
use network_final_project.Base.{
  ℕ, zero, suc, ◌+◌, ◌-◌, Bool, true, false, not, Option, none, some, List, [], ◌∷◌, ◌++◌, ltb, leb,
  ◌==◌, if◌then◌else◌, length, take, drop,
}
use network_final_project.Base.Action.{Result, ok, err}
use network_final_project.Codec.Frame.{frame_prefix_bytes, max_payload_size, payload_length}

-- What the kernel has for the next calls of read(2): bytes that have arrived, an EINTR, or another
-- error. Past the end of the list is the end of the stream.
pub data Event : Type 0 where
  arrived : List ℕ → Event
  interrupted failed : Event

-- What a call leaves of it.
abbrev pub left_over : List ℕ → List Event → List Event
left_over [] events = events
left_over (b ∷ bs) events = arrived (b ∷ bs) ∷ events

-- The bytes read, whether the last call failed with -1, and the events that are left.
pub record Reading : Type 0 where
  pub bytes : List ℕ
  pub is_error : Bool
  pub events : List Event

abbrev after : List ℕ → Reading → Reading
after bs r = record { bytes = bs ++ r.bytes; is_error = r.is_error; events = r.events }

-- The loop of `read_exact`: one event is one call of read(2), which gives at most what is asked for.
-- A read(2) that gives no bytes is the end of the stream.
unfoldable pub read_exact : List Event → ℕ → Reading
read_exact events zero = record { bytes = []; is_error = false; events = events }
read_exact [] (suc n) = record { bytes = []; is_error = false; events = [] }
read_exact (interrupted ∷ events) (suc n) = read_exact events (suc n)
read_exact (failed ∷ events) (suc n) = record { bytes = []; is_error = true; events = events }
read_exact (arrived [] ∷ events) (suc n) = record { bytes = []; is_error = false; events = events }
read_exact (arrived (b ∷ bs) ∷ events) (suc n) =
    let rest = read_exact events (suc n - length (b ∷ bs)) in
    if leb (length (b ∷ bs)) (suc n) then after (b ∷ bs) rest else record {
      bytes = take (suc n) (b ∷ bs);
      is_error = false;
      events = left_over (drop (suc n) (b ∷ bs)) events;
    }

-- The value `read_exact` returns equals a length only when no call failed.
abbrev has_read : Reading → ℕ → Bool
has_read r n = if r.is_error then false else length r.bytes == n

-- The frame and what is left of the stream.
unfoldable pub read_frame : List Event → Result (List ℕ × List Event)
read_frame events =
    let prefix = read_exact events frame_prefix_bytes in
    if has_read prefix 0
    then err "EOF"
    else if not (has_read prefix frame_prefix_bytes)
    then err "failed to read length prefix"
    else if ltb max_payload_size (payload_length prefix.bytes)
    then err "payload too large"
    else if payload_length prefix.bytes == 0
    then ok (prefix.bytes, prefix.events)
    else (let payload = read_exact prefix.events (payload_length prefix.bytes) in
        if has_read payload (payload_length prefix.bytes)
        then ok (prefix.bytes ++ payload.bytes, payload.events)
        else err "failed to read payload")

-- What write(2) answers: how many bytes it has taken at most, an EINTR, or another error.
pub data Taking : Type 0 where
  taken : ℕ → Taking
  stopped broken : Taking

-- The bytes that went out, and whether all of them did. A call past the end of the answers fails.
unfoldable pub write_exact : List Taking → List ℕ → List ℕ × Bool
write_exact takings [] = ([], true)
write_exact [] (b ∷ bs) = ([], false)
write_exact (stopped ∷ takings) (b ∷ bs) = write_exact takings (b ∷ bs)
write_exact (broken ∷ takings) (b ∷ bs) = ([], false)
write_exact (taken n ∷ takings) (b ∷ bs) =
    let (out, whole) = write_exact takings (drop n (b ∷ bs)) in (take n (b ∷ bs) ++ out, whole)

unfoldable pub write_frame : List Taking → List ℕ → Result (List ℕ)
write_frame takings frame =
    if ltb (length frame) frame_prefix_bytes
    then err "frame too small to write"
    else (let (out, whole) = write_exact takings frame in
        if whole then ok out else err "failed to write full frame")
