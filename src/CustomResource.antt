-- ===== src/CustomResource.antt =====
-- example/custom_webservice: a resource that sets no status.
use http_cpp.Base.{codes, [], ok}
use http_cpp.Base.Order.{text_order}
use http_cpp.Base.StdMap.{assign}
use http_cpp.HttpResource.{Resource}

-- `custom_resource::execute`
unfoldable pub execute : Resource
execute request response = (
  ok tt,
  record response {
    header =
        assign (codes "Last-Modified") []
          (assign (codes "Content-Length") [] (assign (codes "Content-Type") [] response.header));
    message_body = codes "Content\r\n";
  },
)
