-- ===== src/Sdk/Held.antt =====
-- What a run of `ue4_sdk_generate` holds: its log, the task port, the reflection context, and the
-- descriptor, the stream and the memory of the writer.
use perfect_build_radar_touc.Base.{
  ℕ, ◌≡◌, refl, inl, inr, Bool, false, not, ◌||◌, List, [], ◌∷◌, ◌++◌, Option, none, some, ◌==◌,
  if◌then◌else◌, Bool-cases, Option-cases, if-split,
}
use perfect_build_radar_touc.Json.{Class}
use perfect_build_radar_touc.Sdk.{
  OpenFailure, no_descriptor, no_stream, no_memory, World, Files, Resource, log_file, task_port,
  context, descriptor, stream, writer, Event, acquired, used, released, open_calls, opened_calls,
  write_calls, close_calls, stream_calls, out_log, out_task, out_ctx, with_task, with_log,
  ue4_sdk_generate,
}

abbrev number : Resource → ℕ
number log_file = 0
number task_port = 1
number context = 2
number descriptor = 3
number stream = 4
number writer = 5

has : Resource → List Resource → Bool
has r [] = false
has r (q ∷ rs) = number r == number q || has r rs

-- What is left, or nothing where it is not held.
without : Resource → List Resource → Option (List Resource)
without r [] = none
without r (q ∷ rs) =
    let rest : Option (List Resource) = elim (without r rs) [
      | none ↦ none
      | some left ↦ some (q ∷ left)
    ] in
    if number r == number q then some rs else rest

-- The resources that are held after the events, where some are held before; nothing when one is
-- used or given back that is not held.
unfoldable pub held : List Resource → List Event → Option (List Resource)
unfolding has without
held rs [] = some rs
held rs (acquired r ∷ es) = held (r ∷ rs) es
held rs (used r ∷ es) = let rest = held rs es in if has r rs then rest else none
held rs (released r ∷ es) = elim (without r rs) [ none ↦ none | some left ↦ held left es ]

-- What follows events that end with `qs` held.
held-append :
    (rs qs : List Resource) (xs ys : List Event)
    → held rs xs ≡ some qs
    → held rs (xs ++ ys) ≡ held qs ys
unfolding held
held-append rs qs [] ys h = let same : rs ≡ qs = cc in rw same refl
held-append rs qs (acquired r ∷ xs) ys h = held-append (r ∷ rs) qs xs ys h
held-append rs qs (used r ∷ xs) ys h = elim (Bool-cases (has r rs)) [
  | inl e ↦ rw e (held-append rs qs xs ys (rw e at h))
  | inr e ↦ let stop : ◌≡◌ {A = Option (List Resource)} none (some qs) = rw e at h in cc
]
held-append rs qs (released r ∷ xs) ys h = elim (Option-cases (without r rs)) [
  | inl e ↦ let stop : ◌≡◌ {A = Option (List Resource)} none (some qs) = rw (e, held) at h in cc
  | inr left ↦ rw (left.1, held) (held-append left.0 qs xs ys (rw (left.1, held) at h))
]

-- What the writer and the walk hold.
abbrev in_walk : List Resource
in_walk = context ∷ task_port ∷ log_file ∷ []

abbrev in_session : List Resource
in_session = writer ∷ stream ∷ descriptor ∷ in_walk

held-write_calls : (cs : List Class) → held in_session (write_calls cs) ≡ some in_session
unfolding held write_calls
held-write_calls [] = refl
held-write_calls (c ∷ cs) = held-write_calls cs

held-open_calls : (f : OpenFailure) → held in_walk (open_calls f) ≡ some in_walk
unfolding held open_calls
held-open_calls no_descriptor = refl
held-open_calls no_stream = refl
held-open_calls no_memory = refl

-- Some resources are held before the events, and others after them.
abbrev Leaves : List Resource → List Resource → List Event → Type 0
Leaves rs qs es = held rs es ≡ some qs

-- The streaming part gives back the writer, for any number of classes.
held-stream_calls : (w : World) → Leaves in_walk in_walk (stream_calls w)
unfolding stream_calls opened_calls close_calls held
held-stream_calls w =
    if-split (Leaves in_walk in_walk) w.writer_opens _ (open_calls w.open_failure)
      (λ _.
        held-append in_session in_session (write_calls w.classes) close_calls
          (held-write_calls w.classes))
      (λ _. held-open_calls w.open_failure)

abbrev EndsFrom : List Resource → (Bool × Files) × List Event → Type 0
EndsFrom rs run = Leaves rs [] run.1

held-with_task : (w : World) (fs : Files) → EndsFrom (task_port ∷ log_file ∷ []) (with_task w fs)
unfolding with_task out_ctx out_task out_log held
held-with_task w fs =
    if-split (EndsFrom (task_port ∷ log_file ∷ [])) (not w.aslr_found) _ _ (λ _. refl)
      (λ _.
        if-split (EndsFrom (task_port ∷ log_file ∷ [])) (not w.reflection_ready) _ _ (λ _. refl)
          (λ _.
            held-append in_walk in_walk (stream_calls w) (used log_file ∷ out_ctx)
              (held-stream_calls w)))

held-with_log : (w : World) (fs : Files) → EndsFrom (log_file ∷ []) (with_log w fs)
unfolding with_log out_log held
held-with_log w fs =
    if-split (EndsFrom (log_file ∷ [])) w.task_acquired _ _ (λ _. held-with_task w fs) (λ _. refl)

-- On every path and for any number of classes, `ue4_sdk_generate` uses the log, the task port, the
-- context and the descriptor, stream and memory of the writer only while it holds them, gives each
-- back once, and holds none of them at the end.
pub held-ue4_sdk_generate : (w : World) (fs : Files) → held [] (ue4_sdk_generate w fs).1 ≡ some []
unfolding ue4_sdk_generate held
held-ue4_sdk_generate w fs =
    if-split (EndsFrom []) w.log_opens _ _ (λ _. held-with_log w fs) (λ _. refl)
