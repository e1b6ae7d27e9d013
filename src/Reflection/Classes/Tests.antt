-- ===== src/Reflection/Classes/Tests.antt =====
-- The walks over the sample.
use perfect_build_radar_touc.Base.{
  [], ◌∷◌, Option-cases, le, ◌≤◌, ◌≡◌, arith, List, some, All, length,
}
use perfect_build_radar_touc.Json.{Class}
use perfect_build_radar_touc.Reflection.{Ctx}
use perfect_build_radar_touc.Reflection.Names.Cache.{IsCached}
use perfect_build_radar_touc.Reflection.Classes.{
  max_objects, batch_objects, item_objects, walk_classes, iterate_classes,
}
use perfect_build_radar_touc.Remote.{read, fetch, read_ptr, read_i32, validate_ptr}
use perfect_build_radar_touc.Reflection.Objects.{usable, get_objects_info}
use perfect_build_radar_touc.Reflection.Classes.Visit.{is_uclass, visit}
use perfect_build_radar_touc.Reflection.Classes.Trace.{
  is_class, entered, entered_batches, entered_classes,
}
use perfect_build_radar_touc.Reflection.Classes.Read.{IsClass}
use perfect_build_radar_touc.Reflection.Classes.Bounds.{walk_classes-IsClass}
use perfect_build_radar_touc.Reflection.Classes.Stream.{Streams, iterate_classes-Streams}
use perfect_build_radar_touc.Reflection.Classes.Ends.{walk_classes-Ends}
use perfect_build_radar_touc.Reflection.Classes.Sample.{
  target, ctx, count_call, ctx-IsCached, target-objects, target-Ends, sample_walk,
}

-- The walk takes the object at 0x30000 for a class.
target-entered : entered_classes target 3 ctx ≡ 0x30000 ∷ []
unfolding entered_classes entered_batches entered is_class is_uclass get_objects_info usable
    batch_objects item_objects read fetch read_ptr read_i32 validate_ptr le
target-entered = ground (arith, Option-cases (visit target 3 ctx 0x30000))

walk_classes-Ends_example : (r : List Class × Ctx) × (walk_classes target 3 ctx ≡ some r)
walk_classes-Ends_example = walk_classes-Ends target 2 3 ctx target-Ends (omega arith)

walk_classes-IsClass_example :
    (length sample_walk.0.0 ≤ max_objects) × All IsClass sample_walk.0.0 × IsCached sample_walk.0.1
walk_classes-IsClass_example =
    walk_classes-IsClass target 3 ctx sample_walk.0.0 sample_walk.0.1 ctx-IsCached sample_walk.1

iterate_classes-Streams_example :
    Streams count_call 0 (walk_classes target 3 ctx) (iterate_classes target count_call 3 0 ctx)
iterate_classes-Streams_example =
    iterate_classes-Streams target count_call 3 0 ctx (record { ptr = 0x20000; count = 1 })
      target-objects
