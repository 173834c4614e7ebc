-- ===== src/Proxy/Answer/Replies.antt =====
-- How often a request is answered.
use maestro_llamacpp.Common.Text.{Text}
use maestro_llamacpp.Catalog.{Catalog}
use maestro_llamacpp.Proxy.Endpoint.{Answer, Endpoint}
use maestro_llamacpp.Proxy.Head.{Head}
