-- ===== src/World.antt =====
-- What the service reads and writes: its databases and its server; and the actions on them.
use messenger_service_go.Prelude.{◌≡◌, Option, none, some, arith}
use messenger_service_go.Go.{Error, ok, err}
use messenger_service_go.Go.Exec.{Exec}
use messenger_service_go.Backend.{Backend}
use messenger_service_go.Socket.Server.{Server}

pub record World (B : Backend) : Type 0 where
  pub state : B.State
  pub server : Server

module _ (B : Backend) where
  -- A write to a database, with the error that its failure gives.
  abbrev pub write : Error → (B.State → Option B.State) → Exec (World B) (Unit {0})
  write e f w = elim (f w.state) [ none ↦ (err e, w) | some s ↦ (ok tt, record w { state = s }) ]

  abbrev pub reads {ℓ} : {A : Type ℓ} → (B.State → A) → Exec (World B) A
  reads f w = (ok (f w.state), w)

  -- A write that succeeds has changed the databases by its function, and nothing else.
  pub write_ok :
      (e : Error) (f : B.State → Option B.State) (w : World B) {w' : World B}
      → write e f w ≡ (ok tt, w')
      → (f w.state ≡ some w'.state) × (w'.server ≡ w.server)
  write_ok e f w h = ground arith

  -- A write that fails has its error and changes nothing.
  pub write_fails :
      (e : Error) (f : B.State → Option B.State) (w : World B) {w' : World B} {r : Error}
      → write e f w ≡ (err r, w')
      → (r ≡ e) × (w' ≡ w)
  write_fails e f w h = ground arith

  pub write-none :
      (e : Error) (f : B.State → Option B.State) (w : World B)
      → f w.state ≡ none
      → write e f w ≡ (err e, w)
  write-none e f w p = ground (arith, p)

  pub write-some :
      (e : Error) (f : B.State → Option B.State) (w : World B) (s : B.State)
      → f w.state ≡ some s
      → write e f w ≡ (ok tt, record w { state = s })
  write-some e f w s p = ground (arith, p)
