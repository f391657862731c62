-- ===== src/Instance/Lifecycle.antt =====
-- What holds of an instance after any calls of start and stop.
use bun_boss.Base.{◌≡◌, refl, Bool, true, false, List, [], ◌∷◌, arith}
use bun_boss.Instance.{
  Running, nothing, starting, stopping, Call, start, stop, Instance, Event, call, resolved,
  rejected, new_instance, begin_start, begin_stop, begin, calls, resume, ends, step, run,
}

-- A stopped instance is not started, and nothing runs in it.
pub record IsValid (i : Instance) : Type 0 where
  pub not_started : i.is_stopped ≡ true → i.started ≡ false
  pub nothing_runs : i.is_stopped ≡ true → i.running ≡ nothing

begin_start-IsValid :
    (r : Running) (i : Instance) → i.running ≡ r → IsValid i → IsValid (begin_start r i)
begin_start-IsValid starting i e v = v
begin_start-IsValid nothing i e v = started_or i v
  where
    started_or : (i : Instance) → IsValid i → IsValid (begin_start nothing i)
    started_or i v = ground arith
begin_start-IsValid stopping i e v = ground arith

begin_stop-IsValid :
    (r : Running) (i : Instance) → i.running ≡ r → IsValid i → IsValid (begin_stop r i)
begin_stop-IsValid stopping i e v = v
begin_stop-IsValid nothing i e v = ground arith
begin_stop-IsValid starting i e v = ground arith

begin-IsValid : (c : Call) (i : Instance) → IsValid i → IsValid (begin c i)
begin-IsValid start i v = begin_start-IsValid i.running i refl v
begin-IsValid stop i v = begin_stop-IsValid i.running i refl v

resume-IsValid : (cs : List Call) (i : Instance) → IsValid i → IsValid (resume cs i)
unfolding resume
resume-IsValid [] i v = v
resume-IsValid (c ∷ cs) i v = resume-IsValid cs (begin c i) (begin-IsValid c i v)

ends-IsValid :
    (r : Running) (fine : Bool) (i : Instance) → i.running ≡ r → IsValid i → IsValid (ends r fine i)
unfolding ends
ends-IsValid nothing fine i e v = v
ends-IsValid starting fine i e v = resume-IsValid i.waiting _ (ground arith)
ends-IsValid stopping fine i e v = resume-IsValid i.waiting _ (ground arith)

calls-IsValid :
    (c : Call) (r : Running) (i : Instance) → i.running ≡ r → IsValid i → IsValid (calls c r i)
calls-IsValid start stopping i e v = ground arith
calls-IsValid stop starting i e v = ground arith
calls-IsValid start nothing i e v = begin-IsValid start i v
calls-IsValid start starting i e v = begin-IsValid start i v
calls-IsValid stop nothing i e v = begin-IsValid stop i v
calls-IsValid stop stopping i e v = begin-IsValid stop i v

step-IsValid : (i : Instance) (e : Event) → IsValid i → IsValid (step i e)
unfolding step
step-IsValid i (call c) v = calls-IsValid c i.running i refl v
step-IsValid i resolved v = ends-IsValid i.running true i refl v
step-IsValid i rejected v = ends-IsValid i.running false i refl v

run_from-IsValid : (i : Instance) (es : List Event) → IsValid i → IsValid (run i es)
unfolding run
run_from-IsValid i [] v = v
run_from-IsValid i (e ∷ es) v = run_from-IsValid (step i e) es (step-IsValid i e v)

-- After any calls of start and stop and any outcomes of them, an instance marked as stopped is not
-- started, and neither a start nor a stop runs in it.
pub run-IsValid : (es : List Event) → IsValid (run new_instance es)
unfolding new_instance
run-IsValid es = run_from-IsValid new_instance es (ground arith)
