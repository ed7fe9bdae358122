-- ===== src/Diagnostics/Guidance.antt =====
-- crates/cng-core/src/diagnostics.rs: the next step that is shown to the user.
pub mod Actions
use codex_no.Base.{Option, none, some}
use codex_no.Base.Text.{Text, codes}
use codex_no.Model.{
  GuardStatusKind, protected, degraded, vpn_unavailable, non_network_failure, paused, UserGuidance,
  DiagnosticEvent, FailureClass, proxy_unavailable, dns, tls, proxy_protocol, web_socket,
  authentication, rate_limit, server, app_server_crash, tool_state, timeout, other,
}

abbrev advice : Text → Text → Text → Text → UserGuidance
advice title detail label action = record {
  title = title;
  detail = detail;
  action_label = some label;
  action = some action;
}

unfoldable pub guidance_for_class : FailureClass → UserGuidance
guidance_for_class authentication =
    advice (codes "这是登录或账户问题，不是 VPN 问题") (codes "代理连接正常，但 Codex 返回了 401 或 403。请重新登录 Codex 后再试。")
      (codes "打开 Codex") (codes "open_codex")
guidance_for_class rate_limit =
    advice (codes "这是服务限流，不是 VPN 问题") (codes "Codex 返回了 429。反复重试通常无效，请稍后再试或检查账户使用限制。")
      (codes "查看脱敏诊断") (codes "wait")
guidance_for_class server =
    advice (codes "Codex 服务暂时异常") (codes "代理已可用，但服务端返回 5xx。请稍后重新检测，不建议反复切换代理。") (codes "查看脱敏诊断")
      (codes "wait")
guidance_for_class app_server_crash =
    advice (codes "Codex 本身需要恢复") (codes "这不是网络故障。请重新打开 Codex；若仍出现，请导出脱敏诊断后提交反馈。")
      (codes "打开 Codex") (codes "open_codex")
guidance_for_class tool_state =
    advice (codes "Codex 本身需要恢复") (codes "这不是网络故障。请重新打开 Codex；若仍出现，请导出脱敏诊断后提交反馈。")
      (codes "打开 Codex") (codes "open_codex")
guidance_for_class dns =
    advice (codes "网络路径仍不稳定") (codes "请在 VPN 客户端更换节点或协议后重新检测；CNG 会继续保持固定入口，不需要重启它。") (codes "重新检测")
      (codes "refresh")
guidance_for_class tls =
    advice (codes "网络路径仍不稳定") (codes "请在 VPN 客户端更换节点或协议后重新检测；CNG 会继续保持固定入口，不需要重启它。") (codes "重新检测")
      (codes "refresh")
guidance_for_class web_socket =
    advice (codes "网络路径仍不稳定") (codes "请在 VPN 客户端更换节点或协议后重新检测；CNG 会继续保持固定入口，不需要重启它。") (codes "重新检测")
      (codes "refresh")
guidance_for_class timeout =
    advice (codes "网络路径仍不稳定") (codes "请在 VPN 客户端更换节点或协议后重新检测；CNG 会继续保持固定入口，不需要重启它。") (codes "重新检测")
      (codes "refresh")
guidance_for_class proxy_unavailable =
    advice (codes "VPN 代理不可用") (codes "请确认 VPN 已启动且本地端口没有被占用；如果自动检测失败，可在高级设置填写本地代理地址。")
      (codes "重新检测") (codes "refresh")
guidance_for_class proxy_protocol =
    advice (codes "VPN 代理不可用") (codes "请确认 VPN 已启动且本地端口没有被占用；如果自动检测失败，可在高级设置填写本地代理地址。")
      (codes "重新检测") (codes "refresh")
guidance_for_class other =
    advice (codes "无法确认故障原因") (codes "请导出脱敏诊断。它不包含 Codex 对话、账号令牌或代理密码。") (codes "导出脱敏诊断")
      (codes "wait")

-- With no event the class is unknown.
unfoldable pub guidance_for_failure : Option DiagnosticEvent → UserGuidance
unfolding guidance_for_class
guidance_for_failure none = guidance_for_class other
guidance_for_failure (some event) = guidance_for_class event.failure_class

unfoldable pub guidance_for : GuardStatusKind → Option DiagnosticEvent → UserGuidance
unfolding guidance_for_failure
guidance_for protected failure =
    advice (codes "已保护") (codes "Codex 正通过固定本地入口连接健康代理。VPN 端口变化会在下一次连接时自动接管。") (codes "重新检测")
      (codes "refresh")
guidance_for degraded failure =
    advice (codes "连接降级") (codes "代理仍可用，但最近检测不稳定。若持续出现重试，请在 VPN 客户端更换节点后重新检测。") (codes "重新检测")
      (codes "refresh")
guidance_for paused failure =
    advice (codes "保护已暂停") (codes "暂停时守护进程不会替 Codex 转发连接。恢复后会继续禁止静默直连回退。") (codes "恢复保护")
      (codes "resume_protection")
guidance_for vpn_unavailable failure =
    advice (codes "VPN 未启动或没有可用代理")
      (codes "请先启动 VPN，并确认它提供系统 PAC、HTTP 或 SOCKS5 本地入口；CNG 已阻止 Codex 静默直连。") (codes "重新检测")
      (codes "refresh")
guidance_for non_network_failure failure = guidance_for_failure failure
