-- ===== src/Tests/Workers.antt =====
-- A run of the supervisor: its one worker becomes ready.
use cartesi_rollups_hl_graph.Base.{refl, arith}
use cartesi_rollups_hl_graph.Supervisor.{
  System, watching, init, set_pc, starting, running, launch, became_ready, all_launched, announce,
  start, later,
}
use cartesi_rollups_hl_graph.Supervisor.Ready.{IsSupervised, Reach-IsSupervised}

abbrev supervised : System
supervised = record init { pc = set_pc (set_pc init.pc 0 starting) 0 running; phase = watching }

Reach-IsSupervised_example : IsSupervised 1 supervised
Reach-IsSupervised_example = Reach-IsSupervised (
    later
      (later (later (later start (launch 0 refl (omega arith))) (became_ready 0 refl refl))
        (all_launched refl))
      (announce refl))
