-- ===== src/GenCopy/Old/Tests.antt =====
-- Collections of a runtime with an old object that nothing refers to and two nursery objects that
-- refer to each other (src/algo/gen_copy_ms/young_copy.c).
use xgc.CardTable.Growing.{is_registered}
use xgc.CardTable.{find_from}
use xgc.GenCopy.{GenCopyState}
use xgc.GenCopy.Copying.{OldStart}
use xgc.GenCopy.Copying.Tests.{
  blocks, scene, scene-IsScene, scene-Funded, scene-RootsGood, two_linked,
}
use xgc.GenCopy.Full.{collect_old, collect_full_impl}
use xgc.GenCopy.Old.{Agrees, IsOld}
use xgc.GenCopy.Old.Collecting.{CollectedOld, collect_old-CollectedOld}
use xgc.GenCopy.Old.Promoting.{FullOutcome, collect_full-FullOutcome}
use xgc.GenCopy.Tests.{small_nursery, one_old, one_old-IsValid, always}
use xgc.MarkSweep.{find_node}
use xgc.MarkSweep.Held.{held_bytes}
use xgc.MarkSweep.Nodes.{known, marked}
use xgc.Prelude.{refl, true, arith, Ends}

small_nursery-Agrees :
    Agrees one_old two_linked.heap two_linked.memory.header small_nursery.old_objects
unfolding is_registered find_from find_node known marked held_bytes
small_nursery-Agrees = record {
  distinct = (refl, omega arith, tt);
  white = λ q. ground arith;
  tracked = λ q. ground arith;
  count = refl;
  bytes = refl;
}

scene-OldStart : OldStart scene
unfolding find_node known
scene-OldStart = record {
  agrees = small_nursery-Agrees;
  fresh = λ n. ground arith;
  outside = λ q h. ground (arith, h);
  count_fits = omega arith;
  bytes_fit = omega arith;
}

two_linked-IsOld : IsOld two_linked small_nursery
two_linked-IsOld = record {
  attached = refl;
  worklist = record { size = refl; pointer = refl };
  barriers = one_old-IsValid;
  agrees = small_nursery-Agrees;
}

collect_old-CollectedOld_example :
    Ends
      (λ rt'. (state' : GenCopyState) × CollectedOld two_linked small_nursery rt' state')
      (collect_old always two_linked)
collect_old-CollectedOld_example =
    collect_old-CollectedOld always two_linked small_nursery two_linked-IsOld (λ n. refl)

collect_full-FullOutcome_example :
    Ends
      (FullOutcome scene scene-IsScene
        (λ n. refl)
        two_linked
        refl
        scene-RootsGood
        scene-Funded
        scene-OldStart
        always
        refl
        (omega arith))
      (collect_full_impl blocks always true always two_linked)
collect_full-FullOutcome_example =
    collect_full-FullOutcome scene scene-IsScene (λ n. refl) two_linked refl scene-RootsGood
      scene-Funded scene-OldStart always refl (omega arith) always (λ n. refl)
