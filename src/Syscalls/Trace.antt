-- ===== src/Syscalls/Trace.antt =====
-- Which calls a piece of code adds to the history.
use test_runner.Prelude.{◌∷◌}
use test_runner.Syscalls.{Call, Log}

-- The second history is the first after calls that all have the property.
pub data Extends (P : Call → Type 0) (log : Log) : Log → Type 0 where
  same : Extends P log log
  added : {log' : Log} {c : Call} → Extends P log log' → P c → Extends P log (c ∷ log')

pub Extends-trans :
    {P : Call → Type 0} {a b c : Log} → Extends P a b → Extends P b c → Extends P a c
Extends-trans x same = x
Extends-trans x (added y p) = added (Extends-trans x y) p

-- The call is in the history.
pub data Called (c : Call) : Log → Type 0 where
  latest : {log : Log} → Called c (c ∷ log)
  earlier : {log : Log} {d : Call} → Called c log → Called c (d ∷ log)

-- What has been called stays called.
pub Extends-Called :
    {P : Call → Type 0} {c : Call} {a b : Log} → Extends P a b → Called c a → Called c b
Extends-Called same h = h
Extends-Called (added x p) h = earlier (Extends-Called x h)

-- The second history is the first after some calls.
abbrev pub Grows : Log → Log → Type 0
Grows a b = Extends (λ c. Unit {0}) a b

pub Extends-Grows : {P : Call → Type 0} {a b : Log} → Extends P a b → Grows a b
Extends-Grows same = same
Extends-Grows (added x p) = added (Extends-Grows x) tt
