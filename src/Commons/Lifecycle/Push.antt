-- ===== src/Commons/Lifecycle/Push.antt =====
-- What a change must push.
use wasteland.Base.{if◌then◌else◌, ◌≡◌, ◌↔◌, false, arith, eq_iff}
use wasteland.Commons.Lifecycle.{ItemLocation, PushTarget, resolve_push_target}

-- The location after the pushes that a target asks for have been made.
pub pushed : PushTarget → ItemLocation → ItemLocation
pushed p loc = record loc {
  origin_status = if p.push_origin then loc.local_status else loc.origin_status;
  upstream_status = if p.push_upstream then loc.local_status else loc.upstream_status;
}

-- In PR mode nothing is ever pushed upstream; origin is pushed exactly when it differs from the
-- local status; and once that push has been made, the same question asks for no further push.
pub resolve_push_target_pr :
    (loc : ItemLocation)
    → let p = resolve_push_target "pr" loc in
      (p.push_upstream ≡ false)
      × ((p.push_origin ≡ false) ↔ (loc.local_status ≡ loc.origin_status))
      × ((resolve_push_target "pr" (pushed p loc)).push_origin ≡ false)
      × ((pushed p loc).upstream_status ≡ loc.upstream_status)
unfolding resolve_push_target pushed
resolve_push_target_pr loc = (
  ground arith,
  ground (arith, eq_iff loc.local_status loc.origin_status),
  ground
      (arith, eq_iff loc.local_status loc.local_status, eq_iff loc.local_status loc.origin_status),
  ground arith,
)
