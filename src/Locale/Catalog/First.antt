-- ===== src/Locale/Catalog/First.antt =====
-- The first half of the dictionary `english` of web/src/locale.js.
use senix.Prelude.{String, List, [], ◌∷◌}

abbrev pub first_messages : List (String × String)
first_messages =
    ("查看实例", "View instances")
    ∷ ("摘除流量", "Drain traffic")
    ∷ ("回接实例", "Rejoin instances")
    ∷ ("调整权重", "Adjust weight")
    ∷ ("禁用实例", "Disable instance")
    ∷ ("运行诊断", "Run diagnostics")
    ∷ ("读取监控指标", "Read metrics")
    ∷ ("规划变更", "Plan changes")
    ∷ ("查看变更", "Read changes")
    ∷ ("应用已批准变更", "Apply approved changes")
    ∷ ("查看证书", "Read certificates")
    ∷ ("签发证书", "Issue certificate")
    ∷ ("查看审计", "Read audit events")
    ∷ ("只读诊断", "Read-only diagnostics")
    ∷ (
      "查看实例、运行诊断和读取当前配置，不能修改网关。",
      "Read instances, diagnostics and current configuration. Cannot change the gateway.",
    )
    ∷ ("配置提案", "Configuration proposals")
    ∷ (
      "读取当前配置并生成变更或回滚计划，不能批准或应用。",
      "Read configuration and create change or rollback plans. Cannot approve or apply them.",
    )
    ∷ ("配置协作", "Configuration collaboration")
    ∷ (
      "生成计划，并应用 Owner 已批准的精确内容。不能批准计划或操作实例流量。",
      "Create plans and apply the exact content approved by the Owner. Cannot approve plans or control instance traffic.",
    )
    ∷ ("请求失败（{status}）", "Request failed ({status})")
    ∷ (
      "尚未初始化所有者账号，请先在服务器本机运行引导命令。",
      "The Owner account has not been initialized. Run the bootstrap command on the gateway server first.",
    )
    ∷ ("用户名或密码不正确。", "Incorrect username or password.")
    ∷ (
      "用所有者账号进入管理面。部署脚本和 MCP 继续使用独立的受限 Key。",
      "Sign in with the Owner account. Deployment scripts and MCP use separate, scoped Keys.",
    )
    ∷ ("用户名", "Username")
    ∷ ("密码", "Password")
    ∷ ("正在验证…", "Signing in…")
    ∷ ("进入控制台", "Sign in")
    ∷ ("尚未初始化账号时，请在网关服务器本机运行 ", "To initialize the account, run this on the gateway server: ")
    ∷ ("。", ".")
    ∷ ("Senix 管理边界", "Senix management boundaries")
    ∷ ("业务流量", "Application traffic")
    ∷ ("Pingora 数据面持续运行", "The Pingora data plane keeps running")
    ∷ ("管理入口", "Management access")
    ∷ ("Owner 会话与 Key 使用同一权限边界", "Owner sessions and Keys share authorization rules")
    ∷ ("控制动作", "Control actions")
    ∷ ("关键操作留下审计记录", "Important actions leave an audit record")
    ∷ ("控制台导航", "Console navigation")
    ∷ ("流量状态", "Traffic status")
    ∷ ("状态", "Flow")
    ∷ ("配置变更", "Configuration changes")
    ∷ ("变更", "Plans")
    ∷ ("请求诊断", "Request diagnostics")
    ∷ ("诊断", "Check")
    ∷ ("访问 Key", "Access Keys")
    ∷ ("TLS 证书", "TLS certificates")
    ∷ ("证书", "TLS")
    ∷ ("审计记录", "Audit events")
    ∷ ("审计", "Audit")
    ∷ ("管理会话", "Owner session")
    ∷ ("退出", "Sign out")
    ∷ ("实例已完成摘流", "Instance drain completed")
    ∷ ("摘流等待超时，实例仍不会接收新请求", "Drain wait timed out. The instance still receives no new requests.")
    ∷ (
      "这是路由 {route} 最后一个可用后端。确认业务可中断后，勾选 force 再摘流。",
      "This is the last available backend for route {route}. Select force only if a service interruption is acceptable.",
    )
    ∷ (
      "健康检查尚未通过。人工确认实例可用后，可以勾选强制回接。",
      "Health checks have not passed. Select force rejoin only after manually verifying the instance.",
    )
    ∷ ("摘流等待时间必须在 1 秒到 24 小时之间。", "Drain wait must be between 1 second and 24 hours.")
    ∷ ("实例已摘流", "Instance drained")
    ∷ ("已停止分配新请求，正在等待在途请求结束", "New requests stopped. Waiting for in-flight requests to finish.")
    ∷ ("权重必须是 0 到 10000 之间的整数。", "Weight must be an integer from 0 to 10000.")
    ∷ ("权重已更新", "Weight updated")
    ∷ ("新代次必须大于 {generation}。", "The new generation must be greater than {generation}.")
    ∷ ("回接权重必须是 0 到 10000 之间的整数。", "Rejoin weight must be an integer from 0 to 10000.")
    ∷ ("实例已按新代次回接", "Instance rejoined with the new generation")
    ∷ ("实例已禁用，只有显式回接才会恢复流量", "Instance disabled. Explicit rejoin is required to restore traffic.")
    ∷ ("实例维护 / ", "Instance maintenance / ")
    ∷ ("关闭实例维护", "Close instance maintenance")
    ∷ ("关闭", "Close")
    ∷ ("摘流进度", "Drain progress")
    ∷ ("普通在途", "Ordinary in-flight")
    ∷ ("长连接", "Long-lived streams")
    ∷ ("截止时间", "Deadline")
    ∷ (
      "实例正在摘流。当前页面没有发起这次操作，因此不持有 operation_id；脚本仍可用原 operation_id 查询进度。",
      "The instance is draining. This page did not start the operation and has no operation_id. Scripts can query progress with the original operation_id.",
    )
    ∷ (
      "只影响后续新请求，不改变现有连接。",
      "Affects only new requests. Existing connections keep their current backend.",
    )
    ∷ ("新权重", "New weight")
    ∷ ("保存权重", "Save weight")
    ∷ ("开始摘流", "Start drain")
    ∷ (
      "立即停止新请求，等待当前请求自然结束。",
      "Stop new requests immediately and wait for existing requests to finish.",
    )
    ∷ ("最长等待（秒）", "Maximum wait (seconds)")
    ∷ (" 允许最后一个后端进入维护", " Allow maintenance on the last available backend")
    ∷ ("正在摘流…", "Draining…")
    ∷ ("以新代次回接", "Rejoin with new generation")
    ∷ (
      "不会因健康恢复自动接流，必须在这里或通过脚本显式回接。",
      "Restored health does not resume traffic. Rejoin explicitly here or through a script.",
    )
    ∷ ("新代次", "New generation")
    ∷ ("权重", "Weight")
    ∷ ("人工确认健康，强制回接", "Manually verified health; force rejoin")
    ∷ ("正在回接…", "Rejoining…")
    ∷ (
      "持续阻止新请求，健康恢复也不会自动启用。",
      "Block new requests until explicitly rejoined, even if health recovers.",
    )
    ∷ ("确定禁用 {id}？", "Disable {id}?")
    ∷ ("取消", "Cancel")
    ∷ ("确认禁用", "Confirm disable")
    ∷ ("实例", "Instances")
    ∷ ("接流中", "Serving")
    ∷ ("需处理", "Need attention")
    ∷ ("实例轨道", "Instances")
    ∷ (
      "流量状态和健康状态分别显示，避免把健康恢复误当成自动回接。",
      "Traffic and health are separate states. Restored health does not automatically rejoin an instance.",
    )
    ∷ ("流量 {traffic}，健康 {health}", "Traffic {traffic}, health {health}")
    ∷ ("流量", "Traffic")
    ∷ ("健康", "Health")
    ∷ ("维护", "Maintain")
    ∷ ("还没有实例。先通过配置快照加入后端实例。", "No instances yet. Add backends through a configuration Snapshot.")
    ∷ ("Host 不能为空，路径必须以 / 开头。", "Host is required. The path must start with /.")
    ∷ ("原始诊断 JSON 已复制", "Raw diagnostic JSON copied")
    ∷ ("复制失败，请展开原始证据后手动复制", "Copy failed. Expand the raw evidence and copy it manually.")
    ∷ (
      "当前运行快照中有后端可以接收新请求。", "The current runtime Snapshot has a backend eligible for new requests.",
    )
    ∷ ("当前配置没有匹配这个 Host 与路径。", "No route matches this Host and path in the current configuration.")
    ∷ (
      "路由已命中，但所有后端都被流量状态、健康状态或权重挡住。",
      "A route matched, but traffic state, health or weight excludes every backend.",
    )
    ∷ ("路由匹配", "Route matching")
    ∷ []
