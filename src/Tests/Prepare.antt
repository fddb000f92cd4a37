-- ===== src/Tests/Prepare.antt =====
-- Two users are registered, and the first is answered last.
use im_system.Common.{refl, arith, ok, err, external, inl}
use im_system.Prepare.{
  Registration, here, next, launches, finishes, launch, finish, no_registration,
}
use im_system.Prepare.Counted.{IsCounted, registration-IsCounted}

abbrev two_users : Registration
two_users = finish 0 (ok 400) (finish 1 (err (external 1)) (launch (launch no_registration)))

registration-IsCounted_example : IsCounted 1 two_users
unfolding launch finish
registration-IsCounted_example = registration-IsCounted (
    next
      (next
        (next (next here (launches (omega arith) (omega arith)))
          (launches (omega arith) (omega arith)))
        (finishes 1 (err (external 1)) (inl refl)))
      (finishes 0 (ok 400) (inl refl)))
