-- ===== src/World/Tx.antt =====
-- internal/entx/manager.go: transactions.
use mdrive.Prelude.{suc, none, some, if◌then◌else◌}
use mdrive.Errorx.{Kind}
use mdrive.Result.{Result, ok, err}
use mdrive.World.Action.{Action, step}

-- The end of WithTx: commit after a success, roll back after an error. If the commit fails
-- nothing is written; if the rollback fails its error is returned, and nothing is written either.
unfoldable pub finish : {A : Type 0} → Result A → Action A
finish (ok a) e w =
    if e.fault w.tick then (err Kind.unknown, record w { tx = none; tick = suc w.tick }) else (
      ok a,
      record w {
        committed = elim w.tx [ none ↦ w.committed | some d ↦ d ];
        tx = none;
        tick = suc w.tick;
      },
    )
finish (err k) e w =
    (err (if e.fault w.tick then Kind.unknown else k), record w { tx = none; tick = suc w.tick })

-- WithTx: inside a transaction the body joins it, else one is begun and finished.
unfoldable pub with_tx : {A : Type 0} → Action A → Action A
unfolding finish
with_tx body e w = elim w.tx [
  | some d ↦ body e w
  | none ↦
      if e.fault w.tick
      then (err Kind.unknown, step w)
      else let (r, w') = body e (record w { tx = some w.committed; tick = suc w.tick }) in
        finish r e w'
]
