-- ===== src/Classify/Tests.antt =====
-- The network 192.168.1.0/24 and flows across its border.
use luci_app_overwatch.Base.{◌+◌, ◌≡◌, ◌↔◌, ◌⊎◌, refl, true, false, [], ◌∷◌, some, arith}
use luci_app_overwatch.Base.Ip.{IpAddr, v4}
use luci_app_overwatch.Classify.{IpNet, ClientDelta, LanClassifier, contains, is_lan, attribute}
use luci_app_overwatch.Classify.Attribute.{attribute-some}
use luci_app_overwatch.Classify.Prefix.{contains_iff, SharesPrefix}
use luci_app_overwatch.Flow.{Flow, tcp}

abbrev home : IpNet
home = record { addr = v4 3232235776; prefix_len = 24 }

abbrev lan : LanClassifier
lan = record { prefixes = home ∷ [] }

abbrev laptop : IpAddr
laptop = v4 3232235876

abbrev outside : IpAddr
outside = v4 134744072

abbrev flow : Flow
flow = record {
  proto = tcp;
  orig_src = laptop;
  orig_dst = outside;
  orig_bytes = 100;
  reply_bytes = 900;
  flow_key = 7;
}

abbrev delta : ClientDelta
delta = record { client = laptop; rx = 900; tx = 100; proto = tcp }

contains_example : (contains home laptop ≡ true) ↔ SharesPrefix (v4 3232235776) 24 laptop
contains_example = contains_iff home laptop (omega arith) (omega arith)

charged_flow : attribute lan flow ≡ some delta
unfolding attribute is_lan contains
charged_flow = refl

attribute-some_example :
    (is_lan lan laptop ≡ true)
    × (delta.rx + delta.tx ≡ flow.orig_bytes + flow.reply_bytes)
    × (delta.proto ≡ flow.proto)
    × (((laptop ≡ laptop) × (delta.tx ≡ flow.orig_bytes))
        ⊎ ((is_lan lan laptop ≡ false) × (laptop ≡ outside) × (delta.tx ≡ flow.reply_bytes)))
attribute-some_example = attribute-some lan flow delta charged_flow
