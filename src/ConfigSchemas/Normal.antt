-- ===== src/ConfigSchemas/Normal.antt =====
-- api/config_schemas.py: the prefix that a policy stores is in normal form.
use netdeploy.Base.{List, ◌≡◌, refl, ap, ◌∙◌, [], ◌++◌, Option, none, some}
use netdeploy.Text.{Text}
use netdeploy.Value.{str}
use netdeploy.Ip.{Network, ipv4_network}
use netdeploy.Ip.Texts.{ipv4_network-IsNetwork, ipv4_network-text}
use netdeploy.ConfigSchemas.Fields.{Problem}
use netdeploy.ConfigSchemas.Bgp.{
  BgpRoutePolicy, policy_problems, validate_cidr, cidr_problems, normal_form, network_text,
}

-- The text of a network that was read is read as the same network.
text-read :
    (v : Text) (w : Network)
    → ipv4_network (str v) ≡ some w
    → ipv4_network (str (network_text w)) ≡ some w
unfolding network_text
text-read v w e = ipv4_network-text w (ipv4_network-IsNetwork v e)

-- What is accepted before more problems was read as a network, and reads again as it.
again :
    (v : Text) (more : List Problem) (o : Option Network)
    → ipv4_network (str v) ≡ o
    → cidr_problems v o ++ more ≡ []
    → (cidr_problems (normal_form v o) (ipv4_network (str (normal_form v o))) ++ more ≡ [])
      × (normal_form (normal_form v o) (ipv4_network (str (normal_form v o))) ≡ normal_form v o)
unfolding cidr_problems normal_form
again v more none e accepted = cc
again v more (some w) e accepted =
    let reads = text-read v w e in
    (
      ap (λ r. cidr_problems (network_text w) r ++ more) reads ∙ accepted,
      ap (normal_form (network_text w)) reads,
    )

-- A policy that the schema accepts is accepted again with the prefix that it stores, and stores it
-- again: the prefix is in normal form.
pub validate_cidr-normal :
    (p : BgpRoutePolicy)
    → policy_problems p ≡ []
    → (policy_problems (validate_cidr p) ≡ []) × (validate_cidr (validate_cidr p) ≡ validate_cidr p)
unfolding policy_problems validate_cidr
validate_cidr-normal p accepted =
    let r = again p.prefix _ (ipv4_network (str p.prefix)) refl accepted in
    (r.0, ap (λ t. record p { prefix = t }) r.1)
