-- ===== src/Page/Arena/Simulates.antt =====
-- A page of page/arena.rs has in every reachable state the invariant of a page of
-- page/shared_arena.rs with the two bitfields in one.
use shared_arena.Page.Arena.Steps.{
  TwoBitfields, Step, take, look, merge, give, let_go, list, deallocate, Reachable, begin, next,
}
use shared_arena.Page.Arena.Sim.{
  Sim, Sim-start, Sim-take, Sim-merge, Sim-look, Sim-list, Sim-deallocate, Sim-let_go,
}
use shared_arena.Page.Arena.Gives.{Sim-give}

pub Step-Sim : {s s' : TwoBitfields} → Sim s → Step s s' → Sim s'
Step-Sim v (take {t} here arena idle some_bit) = Sim-take t here arena some_bit v
Step-Sim v (look arena idle none_set) = Sim-look _ v
Step-Sim v (merge arena seen) = Sim-merge arena v
Step-Sim v (give {t} here) = Sim-give t here v
Step-Sim v (let_go {t} here arena idle) = Sim-let_go t here arena v
Step-Sim v (list {t} here) = Sim-list t here v
Step-Sim v (deallocate {t} here) = Sim-deallocate t here v

pub Reachable-Sim : {s : TwoBitfields} → Reachable s → Sim s
Reachable-Sim begin = Sim-start
Reachable-Sim (next r step) = Step-Sim (Reachable-Sim r) step
