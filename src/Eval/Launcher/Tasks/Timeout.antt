-- ===== src/Eval/Launcher/Tasks/Timeout.antt =====
-- The timeout of a job is that of each of its tasks.
use deepswe_eval_lab.Base.Rat
use deepswe_eval_lab.Base.Rat.{Rat}
use deepswe_eval_lab.Base.Dict
use deepswe_eval_lab.Base.Dict.{Dict}
use deepswe_eval_lab.Base.Json.{Json}
