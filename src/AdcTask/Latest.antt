-- ===== src/AdcTask/Latest.antt =====
-- The published value is the last reading with the average of the last sixteen.
use pico_wenvironment_logger.Prelude.{
  ℕ, suc, ◌+◌, ◌/◌, ◌^◌, ◌<◌, ◌==◌, true, false, List, [], ◌∷◌, ◌++◌, length, All, if◌then◌else◌,
  ◌≡◌, refl, sym, ap, ◌∙◌, arith,
}
use pico_wenvironment_logger.MovingAverage.{MovingAverage, reset, add, average}
use pico_wenvironment_logger.MovingAverage.Buffer.{total}
use pico_wenvironment_logger.MovingAverage.Window.{add_all, last_n, add_all-average}
use pico_wenvironment_logger.AdcTask.{
  AdcLatestValue, AdcTask, Reading, adc_start, adc_round, adc_task,
}

abbrev pub raws : List Reading → List ℕ
raws [] = []
raws (r ∷ rs) = r.raw ∷ raws rs

raws-append : (rs : List Reading) (r : Reading) → raws (rs ++ (r ∷ [])) ≡ raws rs ++ (r.raw ∷ [])
raws-append [] r = refl
raws-append (x ∷ rs) r = ap (λ l. x.raw ∷ l) (raws-append rs r)

add_all-append :
    (vs : List ℕ) (v : ℕ) (m : MovingAverage) → add_all (vs ++ (v ∷ [])) m ≡ add v (add_all vs m)
add_all-append [] v m = refl
add_all-append (x ∷ vs) v m = add_all-append vs v (add x m)

adc_task-avg :
    (rs : List Reading) (t : AdcTask) → (adc_task rs t).adc_avg ≡ add_all (raws rs) t.adc_avg
unfolding adc_round
adc_task-avg [] t = refl
adc_task-avg (r ∷ rs) t = adc_task-avg rs (adc_round r.logs r.raw r.timestamp_ms t).1

adc_task-append :
    (rs : List Reading) (r : Reading) (t : AdcTask)
    → adc_task (rs ++ (r ∷ [])) t ≡ (adc_round r.logs r.raw r.timestamp_ms (adc_task rs t)).1
adc_task-append [] r t = refl
adc_task-append (x ∷ rs) r t = adc_task-append rs r (adc_round x.logs x.raw x.timestamp_ms t).1

-- The published value and what it is made of.
pub record IsLatest (rs : List Reading) (r : Reading) (v : AdcLatestValue) : Type 0 where
  pub valid : v.valid ≡ true
  pub raw : v.raw ≡ r.raw
  pub timestamp : v.timestamp_ms ≡ r.timestamp_ms
  pub avg :
      v.avg ≡ total (last_n 16 (raws (rs ++ (r ∷ [])))) / length (last_n 16 (raws (rs ++ (r ∷ []))))

divided : (w : List ℕ) → (if length w == 0 then 0 else total w / length w) ≡ total w / length w
divided [] = refl
divided (x ∷ w) =
    let e : (suc (length w) == 0) ≡ false = ground arith in
    ap (λ b. if b then 0 else (x + total w) / suc (length w)) e

-- After any rounds of the task, whether they log or not, and one more: the published value is valid
-- and has the reading and the time of that one, and if the last sixteen readings, or all when there
-- are fewer, have 16 bits, its average is their mean, rounded down.
pub adc_task-IsLatest :
    (rs : List Reading) (r : Reading)
    → All (λ x. x < 2 ^ 16) (last_n 16 (raws (rs ++ (r ∷ []))))
    → IsLatest rs r (adc_task (rs ++ (r ∷ [])) adc_start).latest
unfolding adc_round
adc_task-IsLatest rs r b = record {
  valid = ap (λ (t : AdcTask). t.latest.valid) (adc_task-append rs r adc_start);
  raw = ap (λ (t : AdcTask). t.latest.raw) (adc_task-append rs r adc_start);
  timestamp = ap (λ (t : AdcTask). t.latest.timestamp_ms) (adc_task-append rs r adc_start);
  avg =
      ap (λ (t : AdcTask). t.latest.avg) (adc_task-append rs r adc_start)
      ∙ ap (λ m. average (add r.raw m)) (adc_task-avg rs adc_start)
      ∙ ap average (sym (add_all-append (raws rs) r.raw (reset 16)))
      ∙ ap (λ l. average (add_all l (reset 16))) (sym (raws-append rs r))
      ∙ (add_all-average 16 (raws (rs ++ (r ∷ []))) (omega arith) b).2
      ∙ divided (last_n 16 (raws (rs ++ (r ∷ []))));
}
