-- ===== src/Common/Tests.antt =====
-- A timer that polls without delay, and tests of the waiting with it.
use huaweicloud_csi_driver.Prelude.{ℕ, zero, suc, ◌+◌, ◌≡◌, refl, leb, Bool, false}
use huaweicloud_csi_driver.Status.{ok, err, wait_timeout}
use huaweicloud_csi_driver.Effect.{M, fail, attempt}
use huaweicloud_csi_driver.Common.{Timer, IsTimer, poll, wait_for_completed}
use huaweicloud_csi_driver.Common.Waiting.{Polls, Polls-wait_for_completed}

unfoldable pub poll_times : {S : Type 0} → ℕ → M S Bool → M S (Unit {0})
poll_times zero condition = fail wait_timeout
poll_times (suc n) condition = poll condition (poll_times n condition)

abbrev pub instant_timer : Timer
instant_timer = record {
  exponential_backoff = λ S backoff condition. poll_times backoff.steps condition;
}

pub instant_timer-IsTimer : IsTimer instant_timer
unfolding poll_times
instant_timer-IsTimer = record {
  times_out = λ S duration factor condition s. refl;
  polls = λ S duration factor steps condition. (duration, λ s. refl);
}

-- A condition that holds at the third poll.
abbrev third_time : M ℕ Bool
third_time n = (ok (leb 3 (n + 1)), n + 1)

waits_three_times : wait_for_completed instant_timer third_time 0 ≡ (ok tt, 3)
unfolding wait_for_completed poll_times attempt
waits_three_times = refl

never_done :
    wait_for_completed instant_timer (λ (n : ℕ). (ok false, n + 1)) 0 ≡ (err wait_timeout, 30)
unfolding wait_for_completed poll_times attempt
never_done = refl

Polls-wait_for_completed_example :
    let (r, s) = wait_for_completed instant_timer third_time 0 in Polls third_time 30 0 r s
Polls-wait_for_completed_example =
    Polls-wait_for_completed instant_timer instant_timer-IsTimer third_time 0
