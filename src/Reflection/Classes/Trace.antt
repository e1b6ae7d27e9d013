-- ===== src/Reflection/Classes/Trace.antt =====
-- The objects of a walk over the classes whose members the walk starts to read: those that pass the
-- tests of the loop in source/daemon/ue4_reflection.c, up to the first that it does not finish.
use perfect_build_radar_touc.Base.{
  ℕ, zero, suc, ◌+◌, ◌-◌, ◌/◌, min, Bool, ◌&&◌, List, [], ◌∷◌, ◌++◌, none, some, ltb, if◌then◌else◌,
  add64,
}
use perfect_build_radar_touc.Remote.{Vm, read_ptr, validate_ptr}
use perfect_build_radar_touc.Reflection.{Ctx}
use perfect_build_radar_touc.Reflection.Objects.{get_objects_info}
use perfect_build_radar_touc.Reflection.Classes.Visit.{is_uclass, visit}
use perfect_build_radar_touc.Reflection.Classes.{
  max_objects, batch_size, batch_objects, walk_objects,
}

module _ (vm : Vm) where
  -- The object passes the pointer check and its class says that it is a class.
  unfoldable pub is_class : Ctx → (obj : ℕ) → Bool
  is_class ctx obj = validate_ptr obj && (is_uclass vm ctx (read_ptr vm (add64 obj 0x10))).0

module _ (vm : Vm) (fuel : ℕ) where
  -- Of a batch.
  unfoldable pub entered : List ℕ → Ctx → List ℕ
  entered [] ctx = []
  entered (obj ∷ objs) ctx =
      let rest : List ℕ = elim (visit vm fuel ctx obj) [
        | none ↦ []
        | some seen ↦ entered objs seen.1
      ] in
      if is_class vm ctx obj then obj ∷ rest else rest

  -- Of the batches from index `b` on.
  unfoldable pub entered_batches : (objects_ptr num_elems rounds b : ℕ) → Ctx → List ℕ
  entered_batches objects_ptr num_elems zero b ctx = []
  entered_batches objects_ptr num_elems (suc rounds) b ctx =
      let objs = batch_objects vm objects_ptr b (min (num_elems - b) batch_size) in
      let later : List ℕ = elim (walk_objects vm fuel objs ctx) [
        | none ↦ []
        | some r ↦ entered_batches objects_ptr num_elems rounds (b + batch_size) r.1
      ] in
      if ltb b num_elems then entered objs ctx ++ later else []

  -- Of the whole walk.
  unfoldable pub entered_classes : Ctx → List ℕ
  entered_classes ctx = elim (get_objects_info vm ctx.guobjectarray) [
    | none ↦ []
    | some objects ↦
        let num_elems = min objects.count max_objects in
        entered_batches objects.ptr num_elems (num_elems / batch_size + 1) 0 ctx
  ]
