-- ===== src/Core/Timer.antt =====
-- `cambiaTimer`: when its product fits an `int`.
use rssani.Base.{ℕ, ◌≡◌, ◌*◌, none, some, pos, arith, leb, if◌then◌else◌}
use rssani.Core.{Core, cambia_timer}

-- An interval of minutes that is positive is taken up to 35791 of them, with the timer set to as
-- many milliseconds; from 35792 on the product overflows `int`.
pub cambia_timer_lem :
    (n : ℕ) (c : Core)
    → cambia_timer (pos n) c ≡ (
        if leb n 35791
        then some (record c { tiempo = pos n; intervalo = pos (n * 60000) })
        else none)
unfolding cambia_timer
cambia_timer_lem n c = ground arith
