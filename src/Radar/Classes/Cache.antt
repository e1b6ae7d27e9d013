-- ===== src/Radar/Classes/Cache.antt =====
-- The class cache of source/daemon/radar_reader.c, asked for a class twice.
use perfect_build_radar_touc.Base.{
  ℕ, ◌≤◌, inl, inr, List, [], ◌∷◌, arith, ◌==◌, length, fit, Bytes, length-append, Bool-cases,
  Option-cases,
}
use perfect_build_radar_touc.Remote.{Vm}
use perfect_build_radar_touc.Radar.Classes.{
  ClassType, ClassEntry, Resolver, class_cache_size, find_class, remember, classify_class,
}

length-remember :
    (es : List ClassEntry) (cls : ℕ) (type : ClassType) (name : Bytes)
    → length es ≤ class_cache_size
    → length (remember es cls type name) ≤ class_cache_size
unfolding remember
length-remember es cls type name h = ground (
  arith,
  h,
  length-append es ((record { class_ptr = cls; name = fit 32 name; type = type }) ∷ []),
)

-- A class cache of at most 4096 entries stays within them.
pub length-classify_class :
    (r : Resolver) (vm : Vm) (es : List ClassEntry) (cls actor : ℕ)
    → length es ≤ class_cache_size
    → length (classify_class r vm es cls actor).1 ≤ class_cache_size
unfolding classify_class
length-classify_class r vm es cls actor h = elim (Bool-cases (cls == 0)) [
  | inl e ↦ rw e h
  | inr e ↦ elim (Option-cases (find_class es cls)) [
    | inl missing ↦ rw (e, missing) (length-remember es cls _ _ h)
    | inr known ↦ rw (e, known.1) h
  ]
]
