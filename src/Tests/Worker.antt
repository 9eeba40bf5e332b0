-- ===== src/Tests/Worker.antt =====
-- The first message of the daemon to an output process that was just started.
use omalens.Prelude.{◌≡◌, refl, none, arith, ok}
use omalens.Output.Service.{ServiceOutput, spawn_service}
use omalens.Output.Service.Accepts.{IsSound}
use omalens.Output.Service.Rounds.{spawn_service-IsService}
use omalens.Output.Mux.{spawn}
use omalens.Worker.{Meets, child_runs, spawned, bind_worker, check_health, send}
use omalens.Worker.Agreement.{
  Agrees, Passes, Reaches, bind_to, operate, message, deliver, operate-Agrees,
}
use omalens.Tests.Media.{binding, binding-IsBinding}
use omalens.Tests.Output.{tiny, answers}

abbrev meets : Meets
meets = record { child = child_runs; fails_after = none }

abbrev service : ServiceOutput
service = spawn_service tiny 0

answers-IsSound : IsSound answers
answers-IsSound = record {
  pipeline_ok = refl;
  decoder_ok = refl;
  spawn_ok = refl;
  answer_ok = refl;
  stop_ok = refl;
  write_ok = refl;
  early_ok = tt;
  late_ok = (tt, tt);
}

spawned-Agrees : Agrees spawned service
unfolding spawned spawn_service spawn
spawned-Agrees = record { same = refl; service = spawn_service-IsService tiny 0; up = refl }

bind_done : (operate spawned (bind_to binding) meets).1 ≡ ok tt
unfolding operate bind_worker check_health send spawned
bind_done = refl

operate-Agrees_example :
    Passes spawned service
      (message spawned (bind_to binding))
      (operate spawned (bind_to binding) meets).0
      answers
    × Reaches
        (bind_to binding)
        service.decoder
        (deliver service (message spawned (bind_to binding)) answers).0.decoder
operate-Agrees_example =
    operate-Agrees spawned service (bind_to binding) meets answers spawned-Agrees answers-IsSound
      (binding-IsBinding, ground arith) bind_done
