-- ===== src/Tests/Zone.antt =====
-- Questions to a server with the registered table.
use dnet_core.Base.{ℕ, List}
use dnet_core.Net.{Net}
use dnet_core.Text.{codes}
use dnet_core.Dns.Register.{type_ns}
use dnet_core.Dns.Serve.{query_bytes}
use dnet_core.Dns.Table.{registered}
use dnet_core.L2
use dnet_core.Tests.{edns, opt, start}

abbrev server : Net
server = record start { dns_records = registered }

abbrev asked : List ℕ
asked = query_bytes (0, 9) edns 1 0 (codes "Example.COM") type_ns opt
