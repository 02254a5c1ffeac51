-- ===== src/Auth/Manager/Samples.antt =====
-- Three calls and an answer.
use memos_note.Common.{◌≡◌, refl, some}
use memos_note.Auth.Manager.{
  call, settle, idle, step, first_history, extend, Runs, begin, calls, Agrees, Runs-Agrees,
}

two_calls : Runs (step (step idle call).0 call).0 (extend (extend first_history call) call)
two_calls = calls (calls begin)

Runs-Agrees_example :
    Agrees (step (step idle call).0 call).0 (extend (extend first_history call) call)
Runs-Agrees_example = Runs-Agrees two_calls

second_refresh : (step (step (step idle call).0 (settle 0)).0 call).1 ≡ some 1
unfolding step
second_refresh = refl
