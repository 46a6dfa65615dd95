-- ===== src/Page/SharedArena/Preserve.antt =====
-- The invariant along the steps of page/shared_arena.rs.
use shared_arena.Base.{ℕ}
use shared_arena.Page.SharedArena.{
  Shared, Step, load, take, give, let_go, list, deallocate, Reachable, begin, next,
}
use shared_arena.Page.SharedArena.Invariant.{Inv, Inv-start}
use shared_arena.Page.SharedArena.Moves.{Inv-load, Inv-list, Inv-deallocate}
use shared_arena.Page.SharedArena.Take.{Inv-take}
use shared_arena.Page.SharedArena.Give.{Inv-give}
use shared_arena.Page.SharedArena.LetGo.{Inv-let_go}

pub Step-Inv : {s : Shared} {t : ℕ} {s' : Shared} → Inv s → Step s t s' → Inv s'
Step-Inv {t} v (load here held) = Inv-load v t here held
Step-Inv {t} v (take here) = Inv-take v t here
Step-Inv {t} v (give here) = Inv-give v t here
Step-Inv {t} v (let_go here held quiescent) = Inv-let_go v t here held quiescent
Step-Inv {t} v (list here) = Inv-list v t here
Step-Inv {t} v (deallocate here) = Inv-deallocate v t here

pub Reachable-Inv : {s : Shared} → Reachable s → Inv s
Reachable-Inv begin = Inv-start
Reachable-Inv (next r step) = Step-Inv (Reachable-Inv r) step
