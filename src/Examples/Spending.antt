-- ===== src/Examples/Spending.antt =====
-- Concrete inputs of the quotas: an organization with the team plan invites a member.
use blast_radius.Base.{◌≡◌, refl, String, true, some, none, [], ◌∷◌, ok, arith}
use blast_radius.Plans.{Organization, entitlements}
use blast_radius.Server.Quotas.{Tables, Usage, Invitation, analyses_per_month, counts, quota}
use blast_radius.Server.Quotas.Routes.{invite, accept_invite}
use blast_radius.Server.Quotas.Life.{Reach, here, later, next, invites, accepts}
use blast_radius.Server.Quotas.Within.{Within}
use blast_radius.Server.Quotas.Sound.{Reach-Within}
use blast_radius.Server.Quotas.Charges.{Decided, quota_lem}

abbrev team : Organization
team = record { plan = "team"; plan_limits = [] }

abbrev teams : String → Organization
teams o = team

abbrev empty : Tables
empty = record { projects = []; invitations = []; members = []; usage = [] }

abbrev invitation : Invitation
invitation = record {
  organization_id = "acme";
  role = "viewer";
  accepted_at = none;
  revoked_at = none;
  expires_at = 604805;
}

abbrev invited : Tables
invited = record empty { invitations = ("i", invitation) ∷ [] }

abbrev joined : Tables
joined = record empty {
  invitations = ("i", record invitation { accepted_at = some 9 }) ∷ [];
  members = (("ann", "acme"), "viewer") ∷ [];
}

empty-Within : Within teams 5 empty
unfolding counts entitlements
empty-Within = record {
  projects = λ o. omega arith;
  seats = λ o. omega arith;
  analyses = λ o period. omega arith;
}

empty-invite : invite teams 5 "2026-07" "i" "acme" "viewer" empty ≡ ok invited
unfolding invite
empty-invite = refl

invited-accept_invite : accept_invite teams 9 "2026-07" "ann" true "i" invited ≡ ok joined
unfolding accept_invite
invited-accept_invite = refl

empty-Reach : Reach teams 5 empty 9 joined
empty-Reach =
    next "2026-07"
      (later (next "2026-07" here (invites "i" "acme" "viewer" empty-invite)) (omega arith))
      (accepts "ann" true "i" invited-accept_invite)

Reach-Within_example : Within teams 9 joined
Reach-Within_example = Reach-Within teams empty-Reach empty-Within

abbrev spent : Usage
spent = record { analyses = 5000; exports = 0 }

abbrev busy : Tables
busy = record empty { usage = (("acme", "2026-07"), spent) ∷ [] }

quota_lem_example :
    Decided 5 "2026-07" "acme" team analyses_per_month busy
      (quota 5 "2026-07" "acme" team analyses_per_month busy)
quota_lem_example = quota_lem 5 "2026-07" "acme" team analyses_per_month busy
