-- ===== src/Sdk.antt =====
-- `ue4_sdk_generate` of source/daemon/ue4_sdk.c: the calls that can fail are flags of `World`, the
-- classes that `ue4r_iterate_classes` hands to its callback are a list, and the two files are the
-- dump and the pending dump beside it. Of calls in a row on one thing that is held, the list of the
-- calls has one.
pub mod Dump
pub mod Held
pub mod Walk
mod Tests
use perfect_build_radar_touc.Base.{
  ℕ, Bool, true, false, not, ◌&&◌, List, [], ◌∷◌, ◌++◌, Option, none, some, Bytes, ltb, ◌==◌,
  if◌then◌else◌, length,
}
use perfect_build_radar_touc.Json.{Class, ue4j_writer_open, write_classes, ue4j_writer_close}

-- The call of `ue4j_writer_open` that fails, where the writer does not open.
pub data OpenFailure : Type 0 where
  no_descriptor : OpenFailure
  no_stream : OpenFailure
  no_memory : OpenFailure

pub record World : Type 0 where
  pub log_opens : Bool
  pub task_acquired : Bool
  pub aslr_found : Bool
  pub reflection_ready : Bool
  pub writer_opens : Bool
  pub open_failure : OpenFailure
  pub classes : List Class
  pub room : ℕ
  pub flushed : Bool
  pub closed : Bool
  pub renamed : Bool

pub record Files : Type 0 where
  pub output : Option Bytes
  pub pending : Option Bytes

-- What a run takes and gives back. A stream that is closed closes its descriptor. The context that
-- `ue4r_init` frees itself where it fails is not among them.
pub data Resource : Type 0 where
  log_file : Resource
  task_port : Resource
  context : Resource
  descriptor : Resource
  stream : Resource
  writer : Resource

pub data Event : Type 0 where
  acquired : Resource → Event
  used : Resource → Event
  released : Resource → Event

-- `written == count`, where nothing stands for -1.
unfoldable pub is_count : Option ℕ → ℕ → Bool
is_count none count = false
is_count (some written) count = written == count

-- From the close of the writer to the label `out_ctx`.
unfoldable pub settle : World → Option ℕ → Files → Bool × Files
settle w written fs =
    if ltb 0 (length w.classes) && is_count written (length w.classes) && w.renamed
    then (true, record { output = fs.pending; pending = none })
    else (false, record fs { pending = none })

-- From the open of the writer to the label `out_ctx`.
unfoldable pub stream_classes : World → Files → Bool × Files
stream_classes w fs =
    if w.writer_opens
    then (let run =
          ue4j_writer_close w.flushed w.closed
            (write_classes (ue4j_writer_open w.room) w.classes) in
        settle w run.0 (record fs { pending = some run.1.text }))
    else (false, record fs { pending = none })

-- The calls of `ue4j_writer_open`: a part that fails gives back those before it.
unfoldable pub open_calls : OpenFailure → List Event
open_calls no_descriptor = []
open_calls no_stream = acquired descriptor ∷ released descriptor ∷ []
open_calls no_memory =
    acquired descriptor ∷ acquired stream ∷ released stream ∷ released descriptor ∷ []

unfoldable pub opened_calls : List Event
opened_calls = acquired descriptor ∷ acquired stream ∷ acquired writer ∷ used stream ∷ []

-- The walk reads each class from the target by the context, and the callback writes it.
unfoldable pub write_calls : List Class → List Event
write_calls [] = used context ∷ used task_port ∷ []
write_calls (c ∷ cs) = used context ∷ used task_port ∷ used writer ∷ used stream ∷ write_calls cs

-- The calls of `ue4j_writer_close`.
unfoldable pub close_calls : List Event
close_calls =
    used writer
    ∷ used stream
    ∷ released stream
    ∷ released descriptor
    ∷ used writer
    ∷ released writer
    ∷ []

-- From the open of the writer to the label `out_ctx`.
unfoldable pub stream_calls : World → List Event
stream_calls w =
    if w.writer_opens
    then opened_calls ++ (write_calls w.classes ++ close_calls)
    else open_calls w.open_failure

-- The labels, each of which goes on to the next.
unfoldable pub out_log : List Event
out_log = used log_file ∷ released log_file ∷ []

unfoldable pub out_task : List Event
out_task = released task_port ∷ out_log

unfoldable pub out_ctx : List Event
out_ctx = released context ∷ out_task

-- From the slide on.
unfoldable pub with_task : World → Files → (Bool × Files) × List Event
with_task w fs =
    if not w.aslr_found
    then ((false, fs), used task_port ∷ used log_file ∷ out_task)
    else if not w.reflection_ready
    then ((false, fs), used task_port ∷ used log_file ∷ used task_port ∷ used log_file ∷ out_task)
    else (
      stream_classes w fs,
      used task_port
          ∷ used log_file
          ∷ used task_port
          ∷ acquired context
          ∷ used log_file
          ∷ (stream_calls w ++ (used log_file ∷ out_ctx)),
    )

-- From the task port on.
unfoldable pub with_log : World → Files → (Bool × Files) × List Event
with_log w fs =
    let run = with_task w fs in
    if w.task_acquired
    then (run.0, used log_file ∷ acquired task_port ∷ run.1)
    else ((false, fs), used log_file ∷ out_log)

-- The result, with `true` for 0, and the files that are left; and the calls in their order.
unfoldable pub ue4_sdk_generate : World → Files → (Bool × Files) × List Event
ue4_sdk_generate w fs =
    let run = with_log w fs in
    if w.log_opens then (run.0, acquired log_file ∷ run.1) else ((false, fs), [])
